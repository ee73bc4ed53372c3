-- ===== src/Orbit/Tests.antt =====
-- Runs of the text rules of the strict intent gate.
use aegisone_core.Prelude.{lit, ◌≡◌, refl}
use aegisone_core.Orbit.Text.{Unicode, normalize_orbit_text}

abbrev pub ascii : Unicode
ascii = record { nfkc = λ s. s; to_lower = λ s. s }

normalize_tests :
    (normalize_orbit_text ascii (lit "go to  0x7f000001 now") ≡ lit "go to 127.0.0.1 now")
    × (normalize_orbit_text ascii (lit "::ffff:10.0.0.1,x2130706433,2130706433")
        ≡ lit "10.0.0.1,x2130706433,127.0.0.1")
    × (normalize_orbit_text ascii (lit "\"count\":10000000") ≡ lit "\"count\":0.152.150.128")
unfolding normalize_orbit_text
normalize_tests = (refl, refl, refl)
