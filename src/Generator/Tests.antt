-- ===== src/Generator/Tests.antt =====
-- A union of two members, as the specification describes it.
use golagram.Base.{ℕ, ◌≡◌, refl, true, List, [], ◌∷◌, ◌++◌, some, codes, All}
use golagram.Generator.{
  Field, Item, UnionMemberInfo, UnionInfo, field_name, prepare_union, decode_member,
}
use golagram.Generator.Decodable.{HasValue, prepare_union-decode_member}

abbrev curly : List ℕ → List ℕ
curly s = 0x201C ∷ (s ++ 0x201D ∷ [])

abbrev status : List ℕ → Field
status value = record {
  name = codes "status";
  description = codes "The member's status in the chat, always " ++ curly value;
}

abbrev member_type : List ℕ → List ℕ → Item
member_type name value = record {
  name = name;
  kind = codes "type";
  fields = status value ∷ [];
  members = [];
}

abbrev chat_member : Item
chat_member = record {
  name = codes "ChatMember";
  kind = codes "union";
  fields = [];
  members = codes "Owner" ∷ codes "Left" ∷ [];
}

abbrev items : List Item
items =
    chat_member
    ∷ member_type (codes "Owner") (codes "creator")
    ∷ member_type (codes "Left") (codes "left")
    ∷ []

abbrev union : UnionInfo
union = record {
  spec_name = codes "ChatMember";
  go_name = codes "ChatMember";
  disc_field = codes "status";
  members =
      record { spec_name = codes "Owner"; go_name = codes "Owner"; disc_value = codes "creator" }
      ∷ record { spec_name = codes "Left"; go_name = codes "Left"; disc_value = codes "left" }
      ∷ [];
  decodable = true;
}

prepare_union-decode_member_example :
    All (HasValue items) union.members
    × All (λ (m : UnionMemberInfo). decode_member union.members m.disc_value ≡ some m) union.members
unfolding prepare_union
prepare_union-decode_member_example = prepare_union-decode_member items chat_member union refl refl

field_names : field_name (codes "web_app_url") ≡ codes "WebAppURL"
unfolding field_name
field_names = refl
