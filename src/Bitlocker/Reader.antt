-- ===== src/Bitlocker/Reader.antt =====
-- `DecryptingReader` of readers/reader_decrypting.go. Offsets and sizes are not negative. Parameters:
-- AES and its CBC mode (crypto), `ToUpper` of `TrimSpace` and `Contains` (strings), and the
-- underlying reader.
pub mod Split
use text.Mathlib.Text.{◌==◌ as str_eq}
use Prim.Native.String.{String}
use file_system_forensics.Base.{
  Bool, Bytes, [], drop, if◌then◌else◌, leb, length, ltb, not, replicate, suc, take, zero, ℕ, ◌%◌,
  ◌&&◌, ◌++◌, ◌+◌, ◌-◌, ◌/◌, ◌==◌, ◌^◌, ◌∷◌,
}
use file_system_forensics.Bitlocker.Xts.{open_xts}
use file_system_forensics.Go.{
  Result, bad_block_multiple, bad_fvek_length, bad_method, bad_sector_size, before_partition, copy,
  crash, err, no_method, ok, ◌>>=◌,
}
use file_system_forensics.Utils.Layout.{size}

pub record DecryptingReader : Type 0 where
  pub fvek : Bytes
  pub sector_size : ℕ
  pub partition_offset : ℕ
  pub method : String

-- `PutUint64` at the start of 16 zero bytes.
abbrev pub low_bytes : ℕ → ℕ → Bytes
low_bytes zero v = []
low_bytes (suc n) v = v % 256 ∷ low_bytes n (v / 256)

unfoldable pub tweak_of : ℕ → Bytes
tweak_of sector = low_bytes 8 (sector % 2 ^ 64) ++ replicate 8 0

-- `(offset - partitionOffsetB) / sectorSize`, refused where it is negative; the division rounds to 0.
unfoldable pub sector_at : DecryptingReader → ℕ → Result ℕ
sector_at dr offset =
    if dr.sector_size == 0
    then crash
    else if leb dr.partition_offset offset
    then ok ((offset - dr.partition_offset) / dr.sector_size)
    else if ltb (dr.partition_offset - offset) dr.sector_size
    then ok 0
    else err before_partition

unfoldable pub sector_count : ℕ → ℕ → ℕ
sector_count size sector_size =
    if size % sector_size == 0 then size / sector_size else size / sector_size + 1

module _ (clean : String → String) (contains : String → String → Bool) where
  -- `NewDecryptingReader`.
  unfoldable pub new_decrypting_reader : Bytes → ℕ → ℕ → String → Result DecryptingReader
  new_decrypting_reader fvek sector_size partition_offset method =
      let m = clean method in
      let reader : DecryptingReader = record {
        fvek = fvek;
        sector_size = sector_size;
        partition_offset = partition_offset;
        method = m;
      } in
      let sized : Result DecryptingReader =
        if sector_size == 0 then err bad_sector_size else ok reader in
      if str_eq m ""
      then err no_method
      else if contains m "XTS"
      then (if not (length fvek == 32) && not (length fvek == 64)
          then err bad_fvek_length
          else sized)
      else if contains m "CBC"
      then (if not (length fvek == 16) && not (length fvek == 32)
          then err bad_fvek_length
          else sized)
      else err bad_method

module _ (decrypt encrypt : Bytes → Bytes → Bytes) where
  -- The loop of `decryptXTS` over the sectors, each decrypted in its place.
  unfoldable pub decrypt_sectors : DecryptingReader → ℕ → ℕ → Bytes → Result Bytes
  decrypt_sectors dr zero sector rest = ok rest
  decrypt_sectors dr (suc n) sector rest =
      open_xts decrypt encrypt dr.fvek (tweak_of sector) (take dr.sector_size rest) >>= λ decrypted.
      let rest' = copy rest decrypted in
      decrypt_sectors dr n (sector + 1) (drop dr.sector_size rest') >>= λ later.
      ok (take dr.sector_size rest' ++ later)

  unfoldable pub decrypt_xts : DecryptingReader → ℕ → Bytes → Result Bytes
  decrypt_xts dr offset cipher =
      if length cipher == 0
      then ok cipher
      else (sector_at dr offset >>= λ first.
          decrypt_sectors dr (sector_count (length cipher) dr.sector_size) first cipher)

  module _ (cbc_decrypt : Bytes → Bytes → Bytes → Bytes) where
    unfoldable pub decrypt_cbc : DecryptingReader → ℕ → Bytes → Result Bytes
    decrypt_cbc dr offset cipher =
        if length cipher == 0
        then ok []
        else if not (length cipher % 16 == 0)
        then err bad_block_multiple
        else (sector_at dr offset >>= λ sector.
            ok (cbc_decrypt dr.fvek (encrypt dr.fvek (tweak_of sector)) cipher))

    -- `ReadFile`.
    unfoldable pub decrypting_read :
        (String → String → Bool) → (ℕ → ℕ → Result Bytes) → DecryptingReader → ℕ → ℕ → Result Bytes
    decrypting_read contains read_file dr offset size = read_file offset size >>= λ cipher.
        if ltb offset dr.partition_offset
        then ok cipher
        else if contains dr.method "XTS"
        then decrypt_xts dr offset cipher
        else if contains dr.method "CBC"
        then decrypt_cbc dr offset cipher
        else err bad_method
