-- ===== src/Tagged/Examples.antt =====
-- A word with a negative tag.
use gca.Base.{◌≡◌, refl}
use gca.Tagged.{get_data}

negative_tag : get_data 0xFFFE_0000_0000_1000 ≡ 0xFFFE
unfolding get_data
negative_tag = refl
