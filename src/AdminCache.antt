-- ===== src/AdminCache.antt =====
-- admin_cache.go: who is an administrator, remembered for a fixed time. The clock is an argument;
-- GetChatMember with chatMemberIsAdmin is a parameter, what it answers at a time, or none where it
-- fails.
pub mod Fresh
mod Tests
use golagram.Base.{
  ℕ, ◌≡◌, ◌↔◌, ◌+◌, List, [], ◌∷◌, Bool, true, false, not, ◌&&◌, ◌==◌, ==_iff, Option, some, none,
  if◌then◌else◌, ltb, arith,
}
use golagram.Base.Assoc.{Eq, lookup, insert, retain}

pub record AdminKey : Type 0 where
  pub chat_id : ℕ
  pub user_id : ℕ

abbrev pub admin_key_beq : AdminKey → AdminKey → Bool
admin_key_beq a b = a.chat_id == b.chat_id && a.user_id == b.user_id

pub admin_key_beq_iff : (a b : AdminKey) → (admin_key_beq a b ≡ true) ↔ (a ≡ b)
admin_key_beq_iff a b = ground arith

instance abbrev pub admin_key : Eq AdminKey
admin_key = record { beq = admin_key_beq; beq_iff = admin_key_beq_iff }

pub record AdminCacheEntry : Type 0 where
  pub is_admin : Bool
  pub expires_at : ℕ

abbrev pub AdminEntries : Type 0
AdminEntries = List (AdminKey × AdminCacheEntry)

unfoldable pub evict_stale : ℕ → AdminEntries → AdminEntries
evict_stale now entries = retain (λ (e : AdminCacheEntry). not (ltb e.expires_at now)) entries

unfoldable pub unexpired : ℕ → Option AdminCacheEntry → Option Bool
unexpired now none = none
unexpired now (some e) = if ltb e.expires_at now then none else some e.is_admin

unfoldable pub cache_get : AdminKey → ℕ → AdminEntries → Option Bool
unfolding unexpired
cache_get key now entries = unexpired now (lookup key entries)

unfoldable pub cache_set : AdminKey → Bool → ℕ → ℕ → AdminEntries → AdminEntries
cache_set key is_admin ttl now entries =
    insert key (record { is_admin = is_admin; expires_at = now + ttl }) entries

-- What GetChatMember answers is stored; a failure is not, and counts as no administrator.
unfoldable pub remember : AdminKey → Option Bool → ℕ → ℕ → AdminEntries → Bool × AdminEntries
remember key none ttl now entries = (false, entries)
remember key (some is_admin) ttl now entries = (is_admin, cache_set key is_admin ttl now entries)

-- Behind the cache: without a bot there is no answer to get.
unfoldable pub ask_bot :
    Option (ℕ → AdminKey → Option Bool) → AdminKey → ℕ → ℕ → AdminEntries → Bool × AdminEntries
unfolding remember
ask_bot none key ttl now entries = (false, entries)
ask_bot (some member) key ttl now entries = remember key (member now key) ttl now entries

unfoldable pub answer_from :
    Option Bool
    → Option (ℕ → AdminKey → Option Bool)
    → AdminKey
    → ℕ
    → ℕ
    → AdminEntries
    → Bool × AdminEntries
unfolding ask_bot
answer_from (some is_admin) bot key ttl now entries = (is_admin, entries)
answer_from none bot key ttl now entries = ask_bot bot key ttl now entries

-- The filter; an update without a chat or a sender has no key.
unfoldable pub filter_is_admin :
    Option (ℕ → AdminKey → Option Bool)
    → Option AdminKey
    → ℕ
    → ℕ
    → AdminEntries
    → Bool × AdminEntries
unfolding answer_from
filter_is_admin bot none ttl now entries = (false, entries)
filter_is_admin bot (some key) ttl now entries =
    answer_from (cache_get key now entries) bot key ttl now entries
