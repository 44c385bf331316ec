-- ===== src/Parser/Tree.antt =====
-- The parse tree that the parser generated from src/parser/AntlrBinary.g4 gives to the visitor of
-- src/parser/definition_parser.cc. The text of a token is the list of its bytes.
use binary_reader.Common.{ℕ, List, Option}

pub record Token : Type 0 where
  pub line : ℕ
  pub char_position : ℕ
  pub start_index : ℕ

pub record OptionTree : Type 0 where
  pub start : Token
  pub name : Option (List ℕ)
  pub expr : List ℕ

-- The rule is left recursive: a list, a comma, an option.
pub data OptionListTree : Type 0 where
  last_option : OptionTree → OptionListTree
  and_option : OptionListTree → OptionTree → OptionListTree

pub record CompleteTypeTree : Type 0 where
  pub start : Token
  pub identifier : List ℕ
  pub option_list : Option OptionListTree

pub record ExpressionTree : Type 0 where
  pub start : Token
  pub number : List ℕ

pub record DataFieldTree : Type 0 where
  pub start : Token
  pub identifier : List ℕ
  pub complete_type : CompleteTypeTree
  pub expression : Option ExpressionTree

pub record TypeDefinitionTree : Type 0 where
  pub start : Token
  pub identifier : List ℕ
  pub type_members : List DataFieldTree

-- What a call of the listener's `syntaxError` gets; the token is null for an error of the lexer.
pub record SyntaxError : Type 0 where
  pub token : Option Token
  pub line : ℕ
  pub message : List ℕ

-- How the generated `main()` ends: with a tree in which no node is missing, with a tree where error
-- recovery has left out a node that the visitor asks for, or with a `RuntimeException`.
pub data Recovered : Type 0 where
  complete : List TypeDefinitionTree → Recovered
  incomplete : Recovered
  runtime_exception : List ℕ → Recovered

pub record Parsed : Type 0 where
  pub syntax_errors : List SyntaxError
  pub result : Recovered

-- The generated lexer and parser, on the bytes of a definition.
abbrev pub GeneratedParser : Type 0
GeneratedParser = List ℕ → Parsed
