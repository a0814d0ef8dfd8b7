-- ===== src/Presets/Places.antt =====
-- The table `presets` of cmd/web/osm-presets.js.
use osmmini.Base.{List, [], ◌∷◌, ◌++◌, Text, codes, some}
use osmmini.Presets.Kinds.{Preset, preset, words, pairs, emoji, area, line}

abbrev business : List Text
business = words ("name" ∷ "opening_hours" ∷ "website" ∷ "phone" ∷ "wheelchair" ∷ [])

-- Buildings and ways.
unfoldable pub surfaces : List (Text × Preset)
surfaces =
    (
      codes "building",
      record (preset "Gebäude" "🏠" "Gebäude & Flächen" (pairs (("building", "yes") ∷ []))
          (words ("name" ∷ "building:levels" ∷ "height" ∷ []))) { geometry = some area },
    )
    ∷ (
      codes "house",
      record (preset "Wohnhaus" "🏠" "Gebäude & Flächen" (pairs (("building", "house") ∷ []))
          (words ("name" ∷ "building:levels" ∷ "height" ∷ []))) { geometry = some area },
    )
    ∷ (
      codes "garage",
      record (preset "Garage" "🏠" "Gebäude & Flächen" (pairs (("building", "garage") ∷ []))
          (words ("name" ∷ "height" ∷ []))) { geometry = some area },
    )
    ∷ (
      codes "grass",
      record (preset "Grünfläche" "🌳" "Gebäude & Flächen" (pairs (("landuse", "grass") ∷ []))
          (words ("name" ∷ "operator" ∷ []))) { geometry = some area },
    )
    ∷ (
      codes "footway",
      record (preset "Fußweg" "🚶" "Straßen & Wege" (pairs (("highway", "footway") ∷ []))
          (words ("name" ∷ "surface" ∷ "width" ∷ "wheelchair" ∷ "access" ∷ []))) {
            geometry = some line;
          },
    )
    ∷ (
      codes "cycleway",
      record (preset "Radweg" "🚲" "Straßen & Wege" (pairs (("highway", "cycleway") ∷ []))
          (words ("name" ∷ "surface" ∷ "width" ∷ "oneway" ∷ "access" ∷ []))) {
            geometry = some line;
          },
    )
    ∷ (
      codes "path",
      record (preset "Pfad" "🚶" "Straßen & Wege" (pairs (("highway", "path") ∷ []))
          (words ("name" ∷ "surface" ∷ "width" ∷ "access" ∷ []))) { geometry = some line },
    )
    ∷ (
      codes "residential",
      record (preset "Wohnstraße" "🚗" "Straßen & Wege" (pairs (("highway", "residential") ∷ []))
          (words ("name" ∷ "maxspeed" ∷ "oneway" ∷ "surface" ∷ "width" ∷ []))) {
            geometry = some line;
          },
    )
    ∷ (
      codes "service",
      record (preset "Zufahrt" "🚗" "Straßen & Wege" (pairs (("highway", "service") ∷ []))
          (words ("name" ∷ "maxspeed" ∷ "oneway" ∷ "surface" ∷ "access" ∷ []))) {
            geometry = some line;
          },
    )
    ∷ []

-- What people look for.
unfoldable pub services : List (Text × Preset)
services =
    (
      codes "cafe",
      preset "Café" "☕" "Essen & Trinken" (pairs (("amenity", "cafe") ∷ []))
          (business ++ words ("outdoor_seating" ∷ "internet_access" ∷ "takeaway" ∷ [])),
    )
    ∷ (
      codes "restaurant",
      record (preset "Restaurant" "🍽" "Essen & Trinken" (pairs (("amenity", "restaurant") ∷ []))
          (business ++ words ("cuisine" ∷ "outdoor_seating" ∷ "takeaway" ∷ []))) {
            icon = emoji "🍽";
          },
    )
    ∷ (
      codes "fast_food",
      preset "Imbiss" "🍔" "Essen & Trinken" (pairs (("amenity", "fast_food") ∷ []))
          (business ++ words ("cuisine" ∷ "outdoor_seating" ∷ "takeaway" ∷ [])),
    )
    ∷ (
      codes "pharmacy",
      preset "Apotheke" "💊" "Service" (pairs (("amenity", "pharmacy") ∷ []))
          (business ++ words ("dispensing" ∷ [])),
    )
    ∷ (
      codes "atm",
      preset "Geldautomat" "🏧" "Service" (pairs (("amenity", "atm") ∷ []))
          (words ("operator" ∷ "opening_hours" ∷ "wheelchair" ∷ "cash_in" ∷ [])),
    )
    ∷ (
      codes "post_box",
      preset "Briefkasten" "📮" "Service" (pairs (("amenity", "post_box") ∷ []))
          (words ("operator" ∷ "collection_times" ∷ "ref" ∷ [])),
    )
    ∷ (
      codes "vending_machine",
      preset "Automat" "🥤" "Service" (pairs (("amenity", "vending_machine") ∷ []))
          (words ("vending" ∷ "operator" ∷ "opening_hours" ∷ [])),
    )
    ∷ (
      codes "recycling",
      record (preset "Recycling" "♻" "Service" (pairs (("amenity", "recycling") ∷ [])) (
          words (
            "operator" ∷ "recycling:glass_bottles" ∷ "recycling:paper" ∷ "recycling:clothes"
            ∷ "recycling:cans" ∷ []))) { icon = emoji "♻" },
    )
    ∷ (
      codes "bus_stop",
      preset "Bushaltestelle" "🚌" "Verkehr" (pairs (("highway", "bus_stop") ∷ []))
          (words ("name" ∷ "ref" ∷ "shelter" ∷ "bench" ∷ "bin" ∷ "wheelchair" ∷ [])),
    )
    ∷ (
      codes "charging_station",
      preset "Ladestation" "🔌" "Verkehr" (pairs (("amenity", "charging_station") ∷ []))
          (words ("name" ∷ "operator" ∷ "capacity" ∷ "fee" ∷ "opening_hours" ∷ [])),
    )
    ∷ (
      codes "bicycle_parking",
      preset "Fahrradparkplatz" "🚲" "Verkehr" (pairs (("amenity", "bicycle_parking") ∷ []))
          (words ("capacity" ∷ "covered" ∷ "bicycle_parking" ∷ "fee" ∷ [])),
    )
    ∷ (
      codes "bicycle_repair",
      preset "Fahrrad-Reparatur" "🔧" "Verkehr" (pairs (("amenity", "bicycle_repair_station") ∷ []))
          (words ("service:bicycle:pump" ∷ "service:bicycle:tools" ∷ "opening_hours" ∷ [])),
    )
    ∷ (
      codes "bench",
      preset "Sitzbank" "🪑" "Draußen" (pairs (("amenity", "bench") ∷ []))
          (words ("seats" ∷ "backrest" ∷ "material" ∷ "covered" ∷ [])),
    )
    ∷ (
      codes "picnic_table",
      preset "Picknicktisch" "🧺" "Draußen" (pairs (("leisure", "picnic_table") ∷ []))
          (words ("seats" ∷ "material" ∷ "covered" ∷ [])),
    )
    ∷ (
      codes "drinking_water",
      preset "Trinkwasser" "🚰" "Draußen" (pairs (("amenity", "drinking_water") ∷ []))
          (words ("bottle" ∷ "seasonal" ∷ "wheelchair" ∷ [])),
    )
    ∷ (
      codes "waste_basket",
      record (preset "Mülleimer" "🗑" "Draußen" (pairs (("amenity", "waste_basket") ∷ []))
          (words ("waste" ∷ "covered" ∷ []))) { icon = emoji "🗑" },
    )
    ∷ (
      codes "toilets",
      preset "Öffentliche Toilette" "🚻" "Draußen" (pairs (("amenity", "toilets") ∷ []))
          (words ("fee" ∷ "wheelchair" ∷ "changing_table" ∷ "opening_hours" ∷ [])),
    )
    ∷ (
      codes "playground",
      preset "Spielplatz" "🎠" "Draußen" (pairs (("leisure", "playground") ∷ []))
          (words ("name" ∷ "surface" ∷ "wheelchair" ∷ "opening_hours" ∷ [])),
    )
    ∷ (
      codes "shelter",
      record (preset "Unterstand" "⛱" "Draußen" (pairs (("amenity", "shelter") ∷ []))
          (words ("shelter_type" ∷ "bench" ∷ "material" ∷ []))) { icon = emoji "⛱" },
    )
    ∷ []

-- Emergency and access.
unfoldable pub emergencies : List (Text × Preset)
emergencies =
    (
      codes "fire_hydrant",
      record (preset "Hydrant" "🚒" "Feuerwehr & Erste Hilfe"
          (pairs (("emergency", "fire_hydrant") ∷ []))
          (words (
            "name" ∷ "ref" ∷ "operator" ∷ "access" ∷ "fire_hydrant:type" ∷ "fire_hydrant:diameter"
            ∷ "fire_hydrant:position" ∷ "fire_hydrant:pressure" ∷ "water_source" ∷ []))) {
              synonyms = words ("Hydranten" ∷ "Löschwasserhydrant" ∷ []);
              basic_fields = words ("fire_hydrant:type" ∷ "ref" ∷ []);
            },
    )
    ∷ (
      codes "fire_water_pond",
      record (preset "Löschwasserteich" "🪷" "Feuerwehr & Erste Hilfe"
          (pairs (("natural", "water") ∷ ("water", "pond") ∷ ("emergency", "fire_water_pond") ∷ []))
          (words ("name" ∷ "ref" ∷ "operator" ∷ "access" ∷ []))) {
            synonyms = words ("Löschweiher" ∷ "Löschteich" ∷ "Feuerlöschteich" ∷ []);
            basic_fields = words ("ref" ∷ "access" ∷ []);
          },
    )
    ∷ (
      codes "suction_point",
      record (preset "Löschwasser-Saugstelle" "💧" "Feuerwehr & Erste Hilfe"
          (pairs (("emergency", "suction_point") ∷ []))
          (words ("name" ∷ "water_source" ∷ "ref" ∷ "operator" ∷ "access" ∷ []))) {
            synonyms = words ("Saugstelle" ∷ "Löschwasserentnahmestelle" ∷ []);
            basic_fields = words ("water_source" ∷ "ref" ∷ "access" ∷ []);
          },
    )
    ∷ (
      codes "water_tank",
      record (preset "Löschwasserbehälter" "🛢" "Feuerwehr & Erste Hilfe"
          (pairs (("emergency", "water_tank") ∷ []))
          (words ("name" ∷ "water_tank:volume" ∷ "operator" ∷ []))) {
            synonyms = words ("Löschwassertank" ∷ "Löschwasserzisterne" ∷ []);
            basic_fields = words ("water_tank:volume" ∷ []);
            icon = emoji "🛢";
          },
    )
    ∷ (
      codes "fire_station",
      record (preset "Feuerwache" "🚒" "Feuerwehr & Erste Hilfe"
          (pairs (("amenity", "fire_station") ∷ []))
          (words ("name" ∷ "operator" ∷ "phone" ∷ "website" ∷ "opening_hours" ∷ []))) {
            synonyms = words ("Feuerwehrhaus" ∷ "Feuerwehrstation" ∷ []);
            basic_fields = words ("operator" ∷ "phone" ∷ []);
          },
    )
    ∷ (
      codes "defibrillator",
      record (preset "AED / Defibrillator" "❤" "Feuerwehr & Erste Hilfe"
          (pairs (("emergency", "defibrillator") ∷ []))
          (words (
            "defibrillator:location" ∷ "indoor" ∷ "access" ∷ "opening_hours" ∷ "check_date"
            ∷ "source" ∷ "level:ref" ∷ "phone" ∷ []))) {
              synonyms = words ("AED" ∷ "Automatisierter externer Defibrillator" ∷ []);
              basic_fields =
                  words ("indoor" ∷ "access" ∷ "opening_hours" ∷ "defibrillator:location" ∷ []);
              icon = emoji "❤";
            },
    )
    ∷ (
      codes "barrier_free_entrance",
      preset "Barrierefreier Zugang" "♿" "Notfall & Zugang"
          (pairs (("entrance", "yes") ∷ ("wheelchair", "yes") ∷ []))
          (words ("door" ∷ "automatic_door" ∷ "wheelchair" ∷ [])),
    )
    ∷ []

unfoldable pub presets : List (Text × Preset)
unfolding surfaces services emergencies
presets = surfaces ++ (services ++ emergencies)
