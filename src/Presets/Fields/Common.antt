-- ===== src/Presets/Fields/Common.antt =====
-- The first half of the table `fields` of cmd/web/osm-presets.js.
use osmmini.Base.{some, List, [], ◌∷◌, Text, codes}
use osmmini.Presets.Kinds.{
  Field, field, yes_no, pairs, text_type, hours_type, url_type, tel_type, email_type, choice_type,
  number_type,
}

abbrev access : List (Text × Text)
access = pairs (("yes", "Ja") ∷ ("limited", "Teilweise") ∷ ("no", "Nein") ∷ [])

abbrev material : List (Text × Text)
material = pairs (
    ("wood", "Holz")
    ∷ ("metal", "Metall")
    ∷ ("stone", "Stein")
    ∷ ("concrete", "Beton")
    ∷ ("plastic", "Kunststoff")
    ∷ [])

unfoldable pub common_fields : List (Text × Field)
common_fields =
    (
      codes "name",
      record (field "name" "Name" text_type) {
        placeholder = some (codes "Nur falls der Ort einen eigenen Namen hat");
      },
    )
    ∷ (
      codes "opening_hours",
      record (field "opening_hours" "Öffnungszeiten" hours_type) {
        placeholder = some (codes "z. B. Mo-Fr 09:00-18:00");
        hint = some (codes "OSM-Schreibweise mit Bindestrich. Unbekanntes frei lassen.");
        suggestions = pairs (
            ("24/7", "Rund um die Uhr")
            ∷ ("Mo-Fr 09:00-18:00", "Mo–Fr 9–18 Uhr")
            ∷ ("Mo-Sa 08:00-20:00", "Mo–Sa 8–20 Uhr")
            ∷ []);
      },
    )
    ∷ (
      codes "website",
      record (field "website" "Website" url_type) { placeholder = some (codes "https://…") },
    )
    ∷ (
      codes "phone",
      record (field "phone" "Telefon" tel_type) { placeholder = some (codes "+49 …") },
    )
    ∷ (
      codes "email",
      record (field "email" "E-Mail" email_type) { placeholder = some (codes "name@beispiel.de") },
    )
    ∷ (codes "operator", field "operator" "Betreiber" text_type)
    ∷ (
      codes "ref",
      record (field "ref" "Nummer / Kennung" text_type) {
        placeholder = some (codes "z. B. Nummer vom Schild");
      },
    )
    ∷ (
      codes "wheelchair",
      record (field "wheelchair" "Rollstuhlgerecht" choice_type) { options = access },
    )
    ∷ (codes "fee", record (field "fee" "Kostenpflichtig" choice_type) { options = yes_no })
    ∷ (codes "covered", record (field "covered" "Überdacht" choice_type) { options = yes_no })
    ∷ (codes "capacity", field "capacity" "Anzahl Plätze" number_type)
    ∷ (codes "seats", field "seats" "Anzahl Sitzplätze" number_type)
    ∷ (codes "backrest", record (field "backrest" "Rückenlehne" choice_type) { options = yes_no })
    ∷ (codes "material", record (field "material" "Material" choice_type) { options = material })
    ∷ (
      codes "bottle",
      record (field "bottle" "Flaschen auffüllbar" choice_type) { options = yes_no },
    )
    ∷ (codes "seasonal", record (field "seasonal" "Nur saisonal" choice_type) { options = yes_no })
    ∷ (
      codes "bicycle_parking",
      record (field "bicycle_parking" "Bauart" choice_type) {
        options = pairs (
            ("stands", "Bügel")
            ∷ ("wall_loops", "Felgenklemme")
            ∷ ("rack", "Ständer")
            ∷ ("shed", "Unterstand")
            ∷ ("lockers", "Boxen")
            ∷ []);
      },
    )
    ∷ (
      codes "waste",
      record (field "waste" "Inhalt" choice_type) {
        options = pairs (("trash", "Restmüll") ∷ ("dog_excrement", "Hundekot") ∷ []);
      },
    )
    ∷ (
      codes "changing_table",
      record (field "changing_table" "Wickeltisch" choice_type) { options = yes_no },
    )
    ∷ (codes "indoor", record (field "indoor" "Im Gebäude" choice_type) { options = yes_no })
    ∷ (
      codes "access",
      record (field "access" "Zugang" choice_type) {
        hint = some (
            codes
              "Beschreibt die Zugangsberechtigung, nicht den Eigentümer. Zeitliche Einschränkungen separat bei den Öffnungszeiten angeben.");
        options = pairs (
            ("yes", "Öffentlich zugänglich")
            ∷ ("permissive", "Mit widerruflicher Erlaubnis")
            ∷ ("customers", "Nur für Kundschaft")
            ∷ ("private", "Nur mit Erlaubnis")
            ∷ []);
      },
    )
    ∷ (
      codes "defibrillator:location",
      record (field "defibrillator:location" "Standort beschreiben" text_type) {
        placeholder = some (codes "z. B. Eingangshalle links");
      },
    )
    ∷ (
      codes "check_date",
      record (field "check_date" "Zuletzt vor Ort geprüft am" text_type) {
        placeholder = some (codes "JJJJ-MM-TT");
        hint = some (codes "Nur nach eigener Prüfung vor Ort eintragen.");
      },
    )
    ∷ (
      codes "source",
      record (field "source" "Datenquelle" text_type) {
        placeholder = some (codes "z. B. survey oder konkrete Quelle");
        hint = some (codes "Bei eigener Vor-Ort-Prüfung wird „survey“ verwendet.");
      },
    )
    ∷ (
      codes "level:ref",
      record (field "level:ref" "Etage laut Beschilderung" text_type) {
        placeholder = some (codes "z. B. EG oder 1. OG");
      },
    )
    ∷ (
      codes "fire_hydrant:type",
      record (field "fire_hydrant:type" "Hydrantenart" choice_type) {
        options = pairs (
            ("underground", "Unterflur")
            ∷ ("pillar", "Überflur")
            ∷ ("wall", "Wandhydrant")
            ∷ ("pipe", "Trockener Hydrant (mit Pumpe)")
            ∷ []);
      },
    )
    ∷ (
      codes "fire_hydrant:diameter",
      record (field "fire_hydrant:diameter" "Nennweite (DN)" text_type) {
        placeholder = some (codes "z. B. 80 vom Hydrantenschild");
        hint = some (
            codes
              "Wert vom Hydrantenschild übernehmen; nicht den Anschlussdurchmesser am Hydranten.");
      },
    )
    ∷ (
      codes "fire_hydrant:position",
      record (field "fire_hydrant:position" "Lage" choice_type) {
        options = pairs (
            ("sidewalk", "Gehweg")
            ∷ ("lane", "Fahrbahn")
            ∷ ("parking_lot", "Parkplatz")
            ∷ ("green", "Grünfläche")
            ∷ []);
      },
    )
    ∷ (
      codes "fire_hydrant:pressure",
      record (field "fire_hydrant:pressure" "Wasserdruck" choice_type) {
        options = pairs (("yes", "Drucknetz") ∷ ("suction", "Sauganschluss") ∷ []);
      },
    )
    ∷ []
