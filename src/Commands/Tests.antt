-- ===== src/Commands/Tests.antt =====
-- Runs of ParseCommand, and its theorems at concrete texts.
use golagram.Base.{◌≡◌, refl, some, none, codes, arith}
use golagram.Strings.{cut, trim_space}
use golagram.Commands.{CommandObject, parse_command}
use golagram.Commands.Parse.{
  IsWellFormed, format_command, parse_command-format_command, parse_command-IsWellFormed,
}

abbrev start_command : CommandObject
start_command = record {
  command = codes "start";
  mention = codes "my_bot";
  args = codes "ref_12345";
}

parse_start : parse_command (codes "/start@my_bot  ref_12345 ") ≡ some start_command
unfolding parse_command cut trim_space golagram.Strings.is_space
parse_start = refl

parse_plain : parse_command (codes "hello /start") ≡ none
unfolding parse_command
parse_plain = refl

parse_nameless : parse_command (codes "/@my_bot x") ≡ none
unfolding parse_command cut
parse_nameless = refl

start_command-IsWellFormed : IsWellFormed start_command
unfolding trim_space golagram.Strings.is_space
start_command-IsWellFormed = record {
  named = cc;
  name_plain = omega arith;
  name_unspaced = omega arith;
  mention_unspaced = omega arith;
  trimmed = refl;
}

parse_command-format_command_example :
    parse_command (format_command start_command) ≡ some start_command
parse_command-format_command_example =
    parse_command-format_command start_command start_command-IsWellFormed

parse_command-IsWellFormed_example : IsWellFormed start_command
parse_command-IsWellFormed_example =
    parse_command-IsWellFormed (codes "/start@my_bot  ref_12345 ") parse_start
