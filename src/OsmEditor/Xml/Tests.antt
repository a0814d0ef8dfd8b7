-- ===== src/OsmEditor/Xml/Tests.antt =====
-- Runs of the XML part of cmd/web/osm-editor.js, and its theorems at concrete texts.
use osmmini.Base.{◌≡◌, ◌↔◌, refl, some, [], ◌∷◌, map, Text, codes, In}
use osmmini.Base.Int.{pos}
use osmmini.Json.Numbers.{Number, whole}
use osmmini.OsmEditor.Tags.{Tags}
use osmmini.OsmEditor.Element.{Element, at}
use osmmini.OsmEditor.Changes.{get}
use osmmini.OsmEditor.Xml.{esc, tag_line, tag_lines, document}
use osmmini.OsmEditor.Xml.Lines.{read_tag, tag_lines-In}

abbrev title : Text
title = codes "A & \"B\" <C>"

esc-run : esc title ≡ codes "A &amp; &quot;B&quot; &lt;C&gt;"
unfolding esc
esc-run = refl

abbrev named : Tags
named = (codes "name", title) ∷ []

abbrev gone : Element
gone = record {
  id = pos 7;
  version = some (pos 7);
  tags = named;
  shape = at (whole (pos 7)) (whole (pos 7));
}

abbrev seven : Number → Text
seven n = codes "7"

document-run :
    document seven (record { create = []; modify = []; delete = gone ∷ [] })
    ≡ codes
        "<?xml version=\"1.0\" encoding=\"UTF-8\"?>\n<osmChange version=\"0.6\" generator=\"OSMmini\">\n  <delete>\n    <node id=\"7\" version=\"7\"/>\n  </delete>\n</osmChange>\n"
unfolding document
document-run = refl

modify-run :
    document seven (record { create = []; modify = gone ∷ []; delete = [] })
    ≡ codes
        "<?xml version=\"1.0\" encoding=\"UTF-8\"?>\n<osmChange version=\"0.6\" generator=\"OSMmini\">\n  <modify>\n    <node id=\"7\" version=\"7\" lat=\"7\" lon=\"7\">\n      <tag k=\"name\" v=\"A &amp; &quot;B&quot; &lt;C&gt;\"/>\n    </node>\n  </modify>\n</osmChange>\n"
unfolding document tag_lines tag_line esc
modify-run = refl

tag_lines-In_example :
    In (some (codes "name", title)) (map read_tag (tag_lines named))
    ↔ (get (codes "name") named ≡ some title)
tag_lines-In_example = tag_lines-In named (codes "name") title
