-- ===== src/MetaCommand.antt =====
-- src/meta_command.c and include/meta_command.h: the commands that begin with a dot. What a command
-- prints is a value; print_tree and print_constants, which only print, stand for themselves.
use mini_sql.Base.{
  ℕ, Bool, true, false, ◌&&◌, ◌||◌, Option, none, some, List, [], ◌∷◌, map, ◌==◌, if◌then◌else◌,
  length,
}
use mini_sql.Base.Bytes.{Bytes, codes}
use mini_sql.Schema.{Schema}
use mini_sql.Table.{Table}
use mini_sql.Statement.{database_find_table}
use mini_sql.Database.{Database}

pub data MetaOutput : Type 0 where
  -- Nothing more is run: the file is written and closed.
  exits : MetaOutput
  table_names : List Bytes → MetaOutput
  rows_examined : ℕ → MetaOutput
  definitions : List Bytes → MetaOutput
  tree_of : Table → MetaOutput
  constants_of : Option Schema → MetaOutput
  usage : Bytes → MetaOutput
  no_such_table : Bytes → MetaOutput
  -- META_COMMAND_UNRECOGNIZED_COMMAND
  unrecognized : MetaOutput

abbrev is_blank : ℕ → Bool
is_blank c = c == 32 || c == 9

-- strtok skips the blanks between words, so no word is empty.
abbrev pub add_word : Bytes → List Bytes → List Bytes
add_word [] words = words
add_word (c ∷ word) words = (c ∷ word) ∷ words

-- What a line has up to its first blank, and the words behind that.
unfoldable pub split_from : Bytes → Bytes × List Bytes
split_from [] = ([], [])
split_from (c ∷ line) =
    let (word, words) = split_from line in
    if is_blank c then ([], add_word word words) else (c ∷ word, words)

-- All words of the line; `num_words` is their number, and `words[0]` and `words[1]` the first two.
unfoldable pub split_words : Bytes → List Bytes
unfolding split_from
split_words line = let (word, words) = split_from line in add_word word words

-- `strcmp(a, b) == 0`
unfoldable pub same_text : Bytes → Bytes → Bool
same_text [] [] = true
same_text [] (d ∷ b) = false
same_text (c ∷ a) [] = false
same_text (c ∷ a) (d ∷ b) = let rest = same_text a b in if c == d then rest else false

-- `find_table_or_report`, and what to do with the table.
unfoldable pub with_table : Database → Bytes → (Table → MetaOutput) → MetaOutput
with_table db name show = elim (database_find_table db.tables name) [
  | none ↦ no_such_table name
  | some table ↦ show table
]

-- The words behind the command.
unfoldable pub show_schema : Database → List Bytes → MetaOutput
unfolding with_table
show_schema db [] = definitions (map (λ (t : Table). t.sql) db.tables)
show_schema db (name ∷ []) = with_table db name (λ t. definitions (t.sql ∷ []))
show_schema db (name ∷ (more ∷ words)) = usage (codes ".schema [TABLE]")

unfoldable pub show_btree : Database → List Bytes → MetaOutput
unfolding with_table
show_btree db [] = usage (codes ".btree TABLE")
show_btree db (name ∷ []) = with_table db name tree_of
show_btree db (name ∷ (more ∷ words)) = usage (codes ".btree TABLE")

unfoldable pub show_constants : Database → List Bytes → MetaOutput
unfolding with_table
show_constants db [] = constants_of none
show_constants db (name ∷ []) = with_table db name (λ t. constants_of (some t.schema))
show_constants db (name ∷ (more ∷ words)) = usage (codes ".constants [TABLE]")

unfoldable pub run_command : Database → (command : Bytes) → (arguments : List Bytes) → MetaOutput
unfolding same_text show_schema show_btree show_constants
run_command db command arguments =
    let alone = length arguments == 0 in
    if alone && same_text command (codes ".exit")
    then exits
    else if alone && same_text command (codes ".tables")
    then table_names (map (λ (t : Table). t.name) db.tables)
    else if alone && same_text command (codes ".stats")
    then rows_examined db.last_rows_examined
    else if same_text command (codes ".schema")
    then show_schema db arguments
    else if same_text command (codes ".btree")
    then show_btree db arguments
    else if same_text command (codes ".constants")
    then show_constants db arguments
    else unrecognized

unfoldable pub command_of : Database → List Bytes → MetaOutput
unfolding run_command
command_of db [] = unrecognized
command_of db (command ∷ arguments) = run_command db command arguments

unfoldable pub do_meta_command : Bytes → Database → MetaOutput
unfolding split_words command_of
do_meta_command line db = command_of db (split_words line)
