-- ===== src/Commands.antt =====
-- commands.go: parsing a message text as a bot command.
pub mod Parse
mod Tests
use golagram.Base.{ℕ, ◌≡◌, List, [], ◌∷◌, ◌++◌, Option, none, some, if◌then◌else◌, ◌==◌}
use golagram.Strings.{cut, trim_space}

pub record CommandObject : Type 0 where
  pub command : List ℕ
  pub mention : List ℕ
  pub args : List ℕ

-- The checks behind the slash, on the parts that Cut returns.
command_of : List ℕ → List ℕ → List ℕ → Option CommandObject
command_of [] mention args = none
command_of (c ∷ name) mention args =
    some (record { command = c ∷ name; mention = mention; args = trim_space args })

unfoldable pub parse_command : List ℕ → Option CommandObject
unfolding command_of
parse_command [] = none
parse_command (c ∷ text) =
    let (head, args) = cut text b' ' in
    let (name, mention) = cut head b'@' in if c == b'/' then command_of name mention args else none
