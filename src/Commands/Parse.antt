-- ===== src/Commands/Parse.antt =====
-- What ParseCommand of commands.go accepts, and what it returns.
use golagram.Base.{
  ℕ, ◌≡◌, ◌≢◌, refl, List, [], ◌∷◌, ◌++◌, append-nil, some, ◌==◌, Bool-cases, inl, inr, All-append,
  some_inj, none_ne_some, arith,
}
use mathlib.Core.Path.{subst}
use mathlib.Core.List.{cons-ne-nil}
use golagram.Strings.{Lacks, cut}
use golagram.Strings.Laws.{cut-append, cut-Lacks_self, cut-Lacks, cut-keeps-Lacks}
use golagram.Strings.Trim.{IsTrimmed, trim_space-IsTrimmed}
use golagram.Commands.{CommandObject, command_of, parse_command}

-- The commands that a text can spell.
pub record IsWellFormed (c : CommandObject) : Type 0 where
  pub named : c.command ≢ []
  pub name_plain : Lacks b'@' c.command
  pub name_unspaced : Lacks b' ' c.command
  pub mention_unspaced : Lacks b' ' c.mention
  pub trimmed : IsTrimmed c.args

-- "/name@mention args", the mention and the arguments only where they are not empty.
pub mention_part : List ℕ → List ℕ
mention_part [] = []
mention_part (c ∷ m) = b'@' ∷ c ∷ m

pub args_part : List ℕ → List ℕ
args_part [] = []
args_part (c ∷ a) = b' ' ∷ c ∷ a

pub format_command : CommandObject → List ℕ
unfolding mention_part args_part
format_command c = b'/' ∷ ((c.command ++ mention_part c.mention) ++ args_part c.args)

head_cut :
    (name mention : List ℕ)
    → Lacks b'@' name
    → cut (name ++ mention_part mention) b'@' ≡ (name, mention)
unfolding mention_part
head_cut name [] h = rw append-nil (cut-Lacks_self name b'@' h)
head_cut name (c ∷ m) h = cut-append name (c ∷ m) b'@' h

line_cut : (head args : List ℕ) → Lacks b' ' head → cut (head ++ args_part args) b' ' ≡ (head, args)
unfolding args_part
line_cut head [] h = rw append-nil (cut-Lacks_self head b' ' h)
line_cut head (c ∷ a) h = cut-append head (c ∷ a) b' ' h

head-Lacks :
    (name mention : List ℕ)
    → Lacks b' ' name
    → Lacks b' ' mention
    → Lacks b' ' (name ++ mention_part mention)
unfolding mention_part
head-Lacks name [] h k = rw append-nil h
head-Lacks name (c ∷ m) h k = All-append _ name (b'@' ∷ c ∷ m) h ((λ e. absurd (omega arith)), k)

command_of-args :
    (name mention args : List ℕ)
    → name ≢ []
    → IsTrimmed args
    → command_of name mention args
      ≡ some (record { command = name; mention = mention; args = args })
unfolding command_of
command_of-args [] mention args h t = absurd (h refl)
command_of-args (c ∷ name) mention args h t = rw t refl

-- Every well-formed command is read back from its text.
pub parse_command-format_command :
    (c : CommandObject) → IsWellFormed c → parse_command (format_command c) ≡ some c
unfolding parse_command format_command
parse_command-format_command c w =
    rw
      (
        line_cut (c.command ++ mention_part c.mention) c.args
            (head-Lacks c.command c.mention w.name_unspaced w.mention_unspaced),
        head_cut c.command c.mention w.name_plain,
      )
      (command_of-args c.command c.mention c.args w.named w.trimmed)

command_of-IsWellFormed :
    (name mention args : List ℕ) {c : CommandObject}
    → Lacks b'@' name
    → Lacks b' ' name
    → Lacks b' ' mention
    → command_of name mention args ≡ some c
    → IsWellFormed c
unfolding command_of
command_of-IsWellFormed [] mention args p u m h = cc
command_of-IsWellFormed (d ∷ name) mention args p u m h = subst IsWellFormed (some_inj h) (record {
  named = cons-ne-nil d name;
  name_plain = p;
  name_unspaced = u;
  mention_unspaced = m;
  trimmed = trim_space-IsTrimmed args;
})

-- Whatever text is accepted, the command returned is well formed.
pub parse_command-IsWellFormed :
    (text : List ℕ) {c : CommandObject} → parse_command text ≡ some c → IsWellFormed c
unfolding parse_command
parse_command-IsWellFormed [] h = cc
parse_command-IsWellFormed (c ∷ text) h = elim (Bool-cases (c == b'/')) [
  | inl e ↦
      let k = cut-keeps-Lacks (cut text b' ').0 b'@' b' ' (cut-Lacks text b' ') in
      command_of-IsWellFormed _ _ _ (cut-Lacks (cut text b' ').0 b'@') k.0 k.1 (rw e at h)
  | inr e ↦ absurd (none_ne_some (rw e at h))
]
