-- ===== src/Midashi/Tests.antt =====
-- Runs on midashis, and the theorems at them.
use yaskkserv.Prelude.{◌≡◌, refl, [], ◌∷◌, panic}
use yaskkserv.Midashi.{get_dictionary_midashi_key}

-- A request whose midashi is the byte 0x8f alone has no third byte to read.
panics_on_8f : get_dictionary_midashi_key (0x8f ∷ b' ' ∷ []) ≡ panic
unfolding get_dictionary_midashi_key
panics_on_8f = refl
