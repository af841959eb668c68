-- ===== src/Controller/Utils/Dictionary.antt =====
-- src/controller/Utils.cpp: the words of Utils::dictionary.
use dhtperf.Prelude.{ℕ, String, List, [], ◌∷◌, length}

unfoldable pub dictionary : List String
dictionary =
    "refuse" ∷ "punch" ∷ "couple" ∷ "index" ∷ "banknote" ∷ "silverberry" ∷ "Manchu" ∷ "open"
    ∷ "overcome" ∷ "warfighter" ∷ "round" ∷ "angle" ∷ "German" ∷ "disturb" ∷ "Schmidt" ∷ "selfless"
    ∷ "bioptic" ∷ "rally" ∷ "osteoarthropathy" ∷ "August" ∷ "desist" ∷ "dessjatines" ∷ "ads"
    ∷ "catodi" ∷ "gutsing" ∷ "hinder" ∷ "furrow" ∷ "saponify" ∷ "relief" ∷ "complicated"
    ∷ "blizzarded" ∷ "endure" ∷ "wonder" ∷ "marvel" ∷ "beget" ∷ "lay" ∷ "delirium" ∷ "Palmiro" ∷ "I"
    ∷ "royalty" ∷ "spilths" ∷ "conferencegoers" ∷ "reservoirs" ∷ "transient" ∷ "taqwa" ∷ "giant"
    ∷ "clicky" ∷ "static_line" ∷ "coexistences" ∷ "transducer" ∷ "ghits" ∷ "rattletrap"
    ∷ "comedogenic" ∷ "propelling_pencil" ∷ "neutrality" ∷ "calendrers" ∷ "glossed_over"
    ∷ "coexisted" ∷ "chafed" ∷ "dyspareunia" ∷ "fictionalizes" ∷ "high-water_mark" ∷ "beach_head"
    ∷ "potsies" ∷ "bummer" ∷ "scraps" ∷ "aird-guitared" ∷ "preordered" ∷ "quadrantanopia"
    ∷ "Sacramentarians" ∷ "kinesthesiologists" ∷ "flounced" ∷ "timber_wolf" ∷ "loblolly"
    ∷ "way_back_when" ∷ "agricultural_liens" ∷ "in_the_nick_of_time" ∷ "Baldwin's_phosphorus"
    ∷ "Eichmann" ∷ "papillote" ∷ "hackleback" ∷ "Magha_Puja" ∷ "sectored" ∷ "bell_ringers"
    ∷ "eyeopening" ∷ "omphalomancy" ∷ "noncitrus" ∷ "uncovers" ∷ "chopins" ∷ "microlenders"
    ∷ "marginal_benefits" ∷ "err_on_the_side_of_caution" ∷ "loveliest" ∷ "unanchor" ∷ "Trenchardian"
    ∷ "kangaroo_paw" ∷ "commissural" ∷ "diminished_radix_complement" ∷ "casters" ∷ "ET743"
    ∷ "firebases" ∷ "unpunished" ∷ "replayable" ∷ "hotshot" ∷ "eigendecomposition" ∷ "Fennicism"
    ∷ "prima_ballerinas" ∷ "subdural" ∷ "scaggning" ∷ "audio_cassete" ∷ "athletic" ∷ "giaour"
    ∷ "buccal_cavity" ∷ "nonchromatically" ∷ "booting_up" ∷ "dosed" ∷ "cat's_pajamas"
    ∷ "epiphenomenalism" ∷ "glass_transition_temperature" ∷ "honing" ∷ []

-- sizeof(dictionary) / sizeof(dictionary[0])
unfoldable pub dictionary_size : ℕ
unfolding dictionary
dictionary_size = length dictionary
