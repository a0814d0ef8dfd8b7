-- ===== src/Presets/Fields/Special.antt =====
-- The second half of the table `fields` of cmd/web/osm-presets.js, and the lines of an address, which
-- are added afterwards.
use osmmini.Base.{some, List, [], ◌∷◌, Text, codes}
use osmmini.Presets.Kinds.{Field, field, yes_no, pairs, text_type, choice_type}

unfoldable pub special_fields : List (Text × Field)
special_fields =
    (
      codes "water_source",
      record (field "water_source" "Wasserquelle" choice_type) {
        options = pairs (
            ("main", "Wassernetz")
            ∷ ("pond", "Teich")
            ∷ ("river", "Fluss")
            ∷ ("lake", "See")
            ∷ ("water_tank", "Löschwasserbehälter")
            ∷ []);
      },
    )
    ∷ (
      codes "water_tank:volume",
      record (field "water_tank:volume" "Fassungsvermögen (Liter)" text_type) {
        placeholder = some (codes "z. B. 50000 – nur wenn bekannt");
      },
    )
    ∷ (
      codes "collection_times",
      record (field "collection_times" "Leerungszeiten" text_type) {
        placeholder = some (codes "z. B. Mo-Fr 16:00; Sa 12:00");
      },
    )
    ∷ (codes "shelter", record (field "shelter" "Wetterschutz" choice_type) { options = yes_no })
    ∷ (codes "bench", record (field "bench" "Sitzgelegenheit" choice_type) { options = yes_no })
    ∷ (codes "bin", record (field "bin" "Mülleimer" choice_type) { options = yes_no })
    ∷ (
      codes "cuisine",
      record (field "cuisine" "Küche" text_type) {
        placeholder = some (codes "z. B. italian, regional");
      },
    )
    ∷ (
      codes "outdoor_seating",
      record (field "outdoor_seating" "Außenbereich" choice_type) { options = yes_no },
    )
    ∷ (codes "takeaway", record (field "takeaway" "Zum Mitnehmen" choice_type) { options = yes_no })
    ∷ (
      codes "internet_access",
      record (field "internet_access" "WLAN" choice_type) {
        options = pairs (("wlan", "Ja") ∷ ("no", "Nein") ∷ []);
      },
    )
    ∷ (
      codes "dispensing",
      record (field "dispensing" "Rezepte werden eingelöst" choice_type) { options = yes_no },
    )
    ∷ (
      codes "cash_in",
      record (field "cash_in" "Einzahlungen möglich" choice_type) { options = yes_no },
    )
    ∷ (
      codes "vending",
      record (field "vending" "Angebot" choice_type) {
        options = pairs (
            ("drinks", "Getränke")
            ∷ ("food", "Essen")
            ∷ ("sweets", "Süßes")
            ∷ ("parking_tickets", "Parkscheine")
            ∷ ("public_transport_tickets", "Fahrkarten")
            ∷ []);
      },
    )
    ∷ (
      codes "recycling:glass_bottles",
      record (field "recycling:glass_bottles" "Glas" choice_type) { options = yes_no },
    )
    ∷ (
      codes "recycling:paper",
      record (field "recycling:paper" "Papier" choice_type) { options = yes_no },
    )
    ∷ (
      codes "recycling:clothes",
      record (field "recycling:clothes" "Kleidung" choice_type) { options = yes_no },
    )
    ∷ (
      codes "recycling:cans",
      record (field "recycling:cans" "Dosen" choice_type) { options = yes_no },
    )
    ∷ (
      codes "service:bicycle:pump",
      record (field "service:bicycle:pump" "Luftpumpe" choice_type) { options = yes_no },
    )
    ∷ (
      codes "service:bicycle:tools",
      record (field "service:bicycle:tools" "Werkzeug" choice_type) { options = yes_no },
    )
    ∷ (
      codes "shelter_type",
      record (field "shelter_type" "Art des Unterstands" choice_type) {
        options = pairs (
            ("public_transport", "Haltestelle")
            ∷ ("picnic_shelter", "Rastplatz")
            ∷ ("weather_shelter", "Wetterschutz")
            ∷ []);
      },
    )
    ∷ (
      codes "door",
      record (field "door" "Türtyp" choice_type) {
        options = pairs (
            ("hinged", "Drehtür")
            ∷ ("sliding", "Schiebetür")
            ∷ ("revolving", "Karussell")
            ∷ ("no", "Ohne Tür")
            ∷ []);
      },
    )
    ∷ (
      codes "automatic_door",
      record (field "automatic_door" "Automatische Tür" choice_type) { options = yes_no },
    )
    ∷ (
      codes "building:levels",
      record (field "building:levels" "Geschosse über dem Boden" text_type) {
        placeholder = some (codes "z. B. 2");
        hint = some (codes "Ohne Keller und Dachgeschosse; nur bekannte Werte eintragen.");
      },
    )
    ∷ (
      codes "height",
      record (field "height" "Gesamthöhe (Meter)" text_type) {
        placeholder = some (codes "z. B. 8.5");
      },
    )
    ∷ (
      codes "maxspeed",
      record (field "maxspeed" "Höchstgeschwindigkeit" text_type) {
        placeholder = some (codes "z. B. 30 oder walk");
      },
    )
    ∷ (
      codes "oneway",
      record (field "oneway" "Einbahnstraße" choice_type) {
        options =
            pairs (
              ("yes", "In Zeichenrichtung")
              ∷ ("-1", "Gegen Zeichenrichtung")
              ∷ ("no", "Nein")
              ∷ []);
      },
    )
    ∷ (
      codes "width",
      record (field "width" "Breite (Meter)" text_type) { placeholder = some (codes "z. B. 2.5") },
    )
    ∷ (
      codes "surface",
      record (field "surface" "Untergrund" text_type) {
        placeholder = some (codes "z. B. sand, gravel");
      },
    )
    ∷ (
      codes "type",
      record (field "type" "Art der Relation" choice_type) {
        options = pairs (
            ("multipolygon", "Multipolygon (Fläche aus mehreren Wegen)")
            ∷ ("route", "Route")
            ∷ ("boundary", "Grenze")
            ∷ ("restriction", "Abbiegebeschränkung")
            ∷ ("associatedStreet", "Straße mit Adressen")
            ∷ []);
      },
    )
    ∷ []

unfoldable pub address_fields : List (Text × Field)
address_fields =
    (codes "addr:street", field "addr:street" "Straße" text_type)
    ∷ (codes "addr:housenumber", field "addr:housenumber" "Hausnummer" text_type)
    ∷ (codes "addr:postcode", field "addr:postcode" "Postleitzahl" text_type)
    ∷ (codes "addr:city", field "addr:city" "Ort" text_type)
    ∷ []
