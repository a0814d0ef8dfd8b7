-- ===== src/Presets/Categories.antt =====
-- The words and icons for raw tag values in cmd/web/osm-presets.js.
use osmmini.Base.{List, [], ◌∷◌, Text, codes}
use osmmini.Presets.Kinds.{words, emoji}

unfoldable pub key_labels : List (Text × Text)
key_labels =
    (codes "amenity", codes "Art des Ortes")
    ∷ (codes "leisure", codes "Art des Ortes")
    ∷ (codes "highway", codes "Art des Ortes")
    ∷ (codes "emergency", codes "Art des Ortes")
    ∷ (codes "shop", codes "Geschäftsart")
    ∷ (codes "tourism", codes "Art des Ortes")
    ∷ (codes "building", codes "Gebäudeart")
    ∷ (codes "entrance", codes "Zugang")
    ∷ (codes "description", codes "Beschreibung")
    ∷ (codes "note", codes "Hinweis")
    ∷ (codes "source", codes "Quelle")
    ∷ (codes "contact:phone", codes "Telefon")
    ∷ (codes "contact:website", codes "Website")
    ∷ (codes "contact:email", codes "E-Mail")
    ∷ []

unfoldable pub category_names : List (Text × Text)
category_names =
    (codes "supermarket", codes "Supermarkt")
    ∷ (codes "bakery", codes "Bäckerei")
    ∷ (codes "butcher", codes "Metzgerei")
    ∷ (codes "convenience", codes "Laden")
    ∷ (codes "clothes", codes "Bekleidung")
    ∷ (codes "hairdresser", codes "Friseur")
    ∷ (codes "kiosk", codes "Kiosk")
    ∷ (codes "florist", codes "Blumenladen")
    ∷ (codes "bank", codes "Bank")
    ∷ (codes "doctors", codes "Arztpraxis")
    ∷ (codes "dentist", codes "Zahnarzt")
    ∷ (codes "hospital", codes "Krankenhaus")
    ∷ (codes "clinic", codes "Klinik")
    ∷ (codes "school", codes "Schule")
    ∷ (codes "kindergarten", codes "Kindergarten")
    ∷ (codes "library", codes "Bibliothek")
    ∷ (codes "townhall", codes "Rathaus")
    ∷ (codes "police", codes "Polizei")
    ∷ (codes "fire_station", codes "Feuerwehr")
    ∷ (codes "place_of_worship", codes "Kirche / Gebetsstätte")
    ∷ (codes "fuel", codes "Tankstelle")
    ∷ (codes "parking", codes "Parkplatz")
    ∷ (codes "bar", codes "Bar")
    ∷ (codes "pub", codes "Kneipe")
    ∷ (codes "biergarten", codes "Biergarten")
    ∷ (codes "ice_cream", codes "Eisdiele")
    ∷ (codes "hotel", codes "Hotel")
    ∷ (codes "guest_house", codes "Pension")
    ∷ (codes "museum", codes "Museum")
    ∷ (codes "attraction", codes "Sehenswürdigkeit")
    ∷ (codes "viewpoint", codes "Aussichtspunkt")
    ∷ (codes "park", codes "Park")
    ∷ (codes "pitch", codes "Sportplatz")
    ∷ (codes "sports_centre", codes "Sportzentrum")
    ∷ (codes "bus_stop", codes "Bushaltestelle")
    ∷ (codes "platform", codes "Haltestelle")
    ∷ (codes "station", codes "Bahnhof")
    ∷ (codes "halt", codes "Haltepunkt")
    ∷ (codes "tram_stop", codes "Straßenbahnhalt")
    ∷ (codes "residential", codes "Wohnstraße")
    ∷ (codes "service", codes "Zufahrt")
    ∷ (codes "footway", codes "Fußweg")
    ∷ (codes "cycleway", codes "Radweg")
    ∷ (codes "house", codes "Wohnhaus")
    ∷ (codes "yes", codes "Gebäude")
    ∷ (codes "commercial", codes "Gewerbe")
    ∷ (codes "industrial", codes "Industrie")
    ∷ (codes "office", codes "Büro")
    ∷ (codes "water", codes "Gewässer")
    ∷ (codes "stream", codes "Bach")
    ∷ (codes "river", codes "Fluss")
    ∷ (codes "canal", codes "Kanal")
    ∷ (codes "ditch", codes "Graben")
    ∷ (codes "wood", codes "Wald")
    ∷ (codes "forest", codes "Wald")
    ∷ (codes "grassland", codes "Wiese")
    ∷ (codes "meadow", codes "Wiese")
    ∷ (codes "scrub", codes "Gebüsch")
    ∷ (codes "farmland", codes "Acker")
    ∷ (codes "wetland", codes "Feuchtgebiet")
    ∷ (codes "reservoir", codes "Speicherbecken")
    ∷ (codes "garden", codes "Garten")
    ∷ (codes "cemetery", codes "Friedhof")
    ∷ (codes "allotments", codes "Kleingärten")
    ∷ (codes "post_office", codes "Post")
    ∷ (codes "cinema", codes "Kino")
    ∷ (codes "theatre", codes "Theater")
    ∷ []

unfoldable pub category_icons : List (Text × Text)
category_icons =
    (codes "water", codes "💧")
    ∷ (codes "stream", codes "💧")
    ∷ (codes "river", codes "💧")
    ∷ (codes "canal", codes "💧")
    ∷ (codes "ditch", codes "💧")
    ∷ (codes "reservoir", codes "💧")
    ∷ (codes "wood", codes "🌲")
    ∷ (codes "forest", codes "🌲")
    ∷ (codes "grassland", codes "🌿")
    ∷ (codes "meadow", codes "🌿")
    ∷ (codes "scrub", codes "🌿")
    ∷ (codes "farmland", codes "🌾")
    ∷ (codes "garden", codes "🌿")
    ∷ (codes "park", codes "🌳")
    ∷ (codes "supermarket", codes "🛒")
    ∷ (codes "convenience", codes "🛒")
    ∷ (codes "bakery", codes "🥖")
    ∷ (codes "butcher", codes "🥩")
    ∷ (codes "hospital", codes "🏥")
    ∷ (codes "clinic", codes "🏥")
    ∷ (codes "doctors", codes "🩺")
    ∷ (codes "dentist", codes "🦷")
    ∷ (codes "school", codes "🏫")
    ∷ (codes "kindergarten", codes "🧸")
    ∷ (codes "library", codes "📚")
    ∷ (codes "museum", emoji "🏛")
    ∷ (codes "place_of_worship", codes "⛪")
    ∷ (codes "fuel", codes "⛽")
    ∷ (codes "parking", emoji "🅿")
    ∷ (codes "bank", codes "🏦")
    ∷ (codes "post_office", codes "📮")
    ∷ (codes "hotel", codes "🏨")
    ∷ (codes "guest_house", codes "🏨")
    ∷ (codes "fire_station", codes "🚒")
    ∷ (codes "police", codes "🚓")
    ∷ (codes "townhall", emoji "🏛")
    ∷ (codes "bar", codes "🍺")
    ∷ (codes "pub", codes "🍺")
    ∷ (codes "biergarten", codes "🍺")
    ∷ (codes "ice_cream", codes "🍦")
    ∷ (codes "station", codes "🚉")
    ∷ (codes "halt", codes "🚉")
    ∷ (codes "tram_stop", codes "🚋")
    ∷ (codes "platform", codes "🚏")
    ∷ (codes "house", codes "🏠")
    ∷ (codes "residential", codes "🏠")
    ∷ (codes "yes", codes "🏠")
    ∷ (codes "cemetery", codes "🪦")
    ∷ (codes "pitch", codes "⚽")
    ∷ (codes "sports_centre", emoji "🏟")
    ∷ []

unfoldable pub address : List Text
address = words ("addr:street" ∷ "addr:housenumber" ∷ "addr:postcode" ∷ "addr:city" ∷ [])

unfoldable pub generic_fields : List Text
generic_fields =
    words ("name" ∷ "opening_hours" ∷ "website" ∷ "phone" ∷ "email" ∷ "wheelchair" ∷ [])

unfoldable pub primary_category_keys : List Text
primary_category_keys = words (
    "shop" ∷ "amenity" ∷ "office" ∷ "tourism" ∷ "leisure" ∷ "railway" ∷ "public_transport"
    ∷ "emergency" ∷ "craft" ∷ "historic" ∷ "highway" ∷ "building" ∷ [])
