-- ===== src/Tests/Definitions.antt =====
-- A CREATE TABLE that is accepted.
use mini_sql.Base.{◌≡◌, refl, arith, true, false, [], ◌∷◌}
use mini_sql.Base.Bytes.{codes}
use mini_sql.Base.Int.{pos}
use mini_sql.Base.Result.{ok}
use mini_sql.Ast.{CreateTableAst, ast_type_int, ast_type_text}
use mini_sql.Schema.{column_int, column_text, schema_create, schema_names_equal}
use mini_sql.Btree.{leaf_node_max_row_size}
use mini_sql.TableDefinition.{TableDefinition, table_definition_from_ast}
use mini_sql.TableDefinition.Accepted.{IsStorable, table_definition_from_ast-IsStorable}

-- Tables with an INT key and a text.
abbrev pets : CreateTableAst
pets = record {
  table_name = codes "pets";
  columns =
      record {
        name = codes "id";
        type = ast_type_int;
        width = pos 0;
        width_out_of_range = false;
        primary_key = true;
      }
      ∷ record {
        name = codes "name";
        type = ast_type_text;
        width = pos 4;
        width_out_of_range = false;
        primary_key = false;
      }
      ∷ [];
}

abbrev pets_definition : TableDefinition
pets_definition = record {
  name = codes "pets";
  schema = schema_create (
      record { column_id = 0; name = codes "id"; type = column_int; size = 4; offset = 0 }
      ∷ record { column_id = 0; name = codes "name"; type = column_text; size = 4; offset = 0 }
      ∷ []);
  key_column_id = 1;
  sql = codes "CREATE TABLE pets (id INT PRIMARY KEY, name TEXT(4))";
}

pets_accepted : table_definition_from_ast pets ≡ ok pets_definition
unfolding table_definition_from_ast leaf_node_max_row_size schema_names_equal schema_create
pets_accepted = refl

table_definition_from_ast-IsStorable_example : IsStorable pets pets_definition
table_definition_from_ast-IsStorable_example =
    table_definition_from_ast-IsStorable pets pets_definition (omega arith) pets_accepted
