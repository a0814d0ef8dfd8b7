-- ===== src/Presets/Kinds.antt =====
-- The entries of the two tables of cmd/web/osm-presets.js.
use osmmini.Base.{String, Option, none, List, [], ◌∷◌, ◌++◌, Text, codes}

pub data FieldType : Type 0 where
  text_type hours_type url_type tel_type email_type choice_type number_type : FieldType

pub record Field : Type 0 where
  pub key : Text
  pub label : Text
  pub type : FieldType
  pub placeholder : Option Text
  pub hint : Option Text
  pub options : List (Text × Text)
  pub suggestions : List (Text × Text)

pub data Outline : Type 0 where
  area line : Outline

pub record Preset : Type 0 where
  pub label : Text
  pub icon : Text
  pub group : Text
  pub geometry : Option Outline
  pub tags : List (Text × Text)
  pub fields : List Text
  pub synonyms : List Text
  pub basic_fields : List Text

abbrev pub words : List String → List Text
words [] = []
words (s ∷ rest) = codes s ∷ words rest

abbrev pub pairs : List (String × String) → List (Text × Text)
pairs [] = []
pairs ((a, b) ∷ rest) = (codes a, codes b) ∷ pairs rest

-- An entry that has only what all entries have.
abbrev pub field : String → String → FieldType → Field
field key label type = record {
  key = codes key;
  label = codes label;
  type = type;
  placeholder = none;
  hint = none;
  options = [];
  suggestions = [];
}

abbrev pub preset : String → String → String → List (Text × Text) → List Text → Preset
preset label icon group tags fields = record {
  label = codes label;
  icon = codes icon;
  group = codes group;
  geometry = none;
  tags = tags;
  fields = fields;
  synonyms = [];
  basic_fields = [];
}

abbrev pub yes_no : List (Text × Text)
yes_no = pairs (("yes", "Ja") ∷ ("no", "Nein") ∷ [])

-- An emoji that ends in the character which asks for a coloured sign.
abbrev pub emoji : String → Text
emoji s = codes s ++ 0xFE0F ∷ []
