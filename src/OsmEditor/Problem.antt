-- ===== src/OsmEditor/Problem.antt =====
-- The errors that cmd/web/osm-editor.js throws, one constructor for each message.
use osmmini.Base.{Text, Result}

pub data Problem : Type 0 where
  too_many_tags tag_not_text invalid_tag : Problem
  duplicate_tag : Text → Problem
  invalid_member invalid_role : Problem
  invalid_object invalid_tags invalid_position incomplete_way : Problem
  no_member_list too_many_members : Problem
  delete_unsaved identity_changed no_property type_error : Problem
  too_many_drafts duplicate_object unresolved invalid_backup not_inner not_adjacent : Problem

abbrev pub Checked {ℓ} : Type ℓ → Type ℓ
Checked A = Result Problem A
