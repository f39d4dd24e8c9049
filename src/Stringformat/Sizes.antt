-- ===== src/Stringformat/Sizes.antt =====
-- conversion/conversion.go: conversions of sizes and back.
use common_host_libs.Prelude.{ℕ, ◌^◌, ◌≡◌, ◌<◌, arith}
use common_host_libs.Stringformat.{
  convert_gib_to_mib, convert_mib_to_gib, convert_bytes_to_mib, convert_bytes_to_gib,
}

-- A size in GiB that is below 2 ^ 54 comes back from its conversion to MiB.
pub convert_mib_to_gib-convert_gib_to_mib :
    (value : ℕ) → value < 2 ^ 54 → convert_mib_to_gib (convert_gib_to_mib value) ≡ value
unfolding convert_mib_to_gib convert_gib_to_mib
convert_mib_to_gib-convert_gib_to_mib value h = ground (arith, h)

-- Bytes converted to MiB and those to GiB are the bytes converted to GiB.
pub convert_mib_to_gib-convert_bytes_to_mib :
    (value : ℕ) → convert_mib_to_gib (convert_bytes_to_mib value) ≡ convert_bytes_to_gib value
unfolding convert_mib_to_gib convert_bytes_to_mib convert_bytes_to_gib
convert_mib_to_gib-convert_bytes_to_mib value = ground arith
