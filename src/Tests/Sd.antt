-- ===== src/Tests/Sd.antt =====
-- A run of the theorem on src/disk/sd.c.
use fdc_sds_pio.Prelude.{Bytes, [], codes, false, length, refl, some, ◌++◌, ◌<◌, ◌∷◌, ◌≡◌}
use fdc_sds_pio.Sd.{first_is, has_byte, mount_point, sd_path, segment_ok, walk}
use fdc_sds_pio.Sd.Contained.{IsContained, components, sd_path-IsContained}

abbrev nested : Bytes
nested = codes "cpm/a.dsk"

accepted : sd_path nested 20 ≡ some (codes "/sd/cpm/a.dsk")
unfolding sd_path has_byte walk segment_ok
accepted = refl

sd_path-IsContained_example :
    (has_byte b'\\' nested ≡ false)
    × (first_is b'/' nested ≡ false)
    × IsContained (components [] nested)
    × (codes "/sd/cpm/a.dsk" ≡ mount_point ++ b'/' ∷ nested)
    × (length (codes "/sd/cpm/a.dsk") < 20)
sd_path-IsContained_example = sd_path-IsContained nested 20 (codes "/sd/cpm/a.dsk") accepted
