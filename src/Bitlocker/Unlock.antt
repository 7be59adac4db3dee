-- ===== src/Bitlocker/Unlock.antt =====
-- The key chain of a BitLocker volume: `DecryptVMK`, `DecryptFVEK` and `Decrypt` of
-- disk/Bitlocker/bitlocker.go. SHA-256, AES and its counter mode are parameters.
use file_system_forensics.Base.{
  Bool, Bytes, List, [], false, if◌then◌else◌, ltb, map, not, take, true, ℕ, ◌&&◌, ◌++◌, ◌==◌, ◌∷◌,
}
use file_system_forensics.Bitlocker.Ccm.{get_expected_tag, open_ccm}
use file_system_forensics.Bitlocker.Datums.{
  Datum, Datums, aesccm_datum, datum_and, equal16, key_datum, master_key_datum, no_datums,
  stretch_key_datum,
}
use file_system_forensics.Bitlocker.Keys.{derive_key_from_recovery_key, le_bytes, stretch_key}
use file_system_forensics.Bitlocker.Metadata.{MetadataBlock}
use file_system_forensics.Go.{
  Result, Slice, at, bad_vmk_method, crash, err, full, no_fvek, no_vmk_key, ok, subslice, suffix,
  ◌>>=◌,
}
use file_system_forensics.Utils.Endian.{le, to_uint16}
use file_system_forensics.Utils.Layout.{size}
use file_system_forensics.Utils.Unmarshal.{Struct, get_num, get_nums}
use mathlib.Core.List.{flatten}

-- The number that `GetEncryptionMethod` of disk/Bitlocker/datums switches on: the low 16 bits.
unfoldable pub encryption_method : Struct → ℕ
encryption_method fields = le (take 2 (get_nums "EncryptionMethod" fields))

-- `GetProtectionType` of disk/Bitlocker/datums/vmk.go, as far as it is asked: "Clear Key".
abbrev pub is_clear_key : Struct → Bool
is_clear_key fields = get_num "ProtectionType" fields == 0

-- `PasswordUTF16LE`, on the code units of the password.
unfoldable pub password_utf16le : List ℕ → Bytes
unfolding le_bytes
password_utf16le units = flatten (map (le_bytes 2) units)

-- `FVEAESCCMKey.GetMac`.
unfoldable pub get_mac : Slice → Result Bytes
get_mac encrypted = subslice encrypted 0 16 >>= λ mac. ok mac.bytes

-- The copy that `DatumHeader.Process` keeps of its eight bytes, from the four words read.
unfoldable pub header_bytes : Struct → Bytes
unfolding le_bytes
header_bytes h =
    le_bytes 2 (get_num "EntrySize" h)
    ++ (le_bytes 2 (get_num "EntryType" h)
        ++ (le_bytes 2 (get_num "ValueType" h) ++ le_bytes 2 (get_num "Version" h)))

-- What one nested datum does to the loop: it goes on with a key, nil being [], or returns.
pub data Flow : Type 0 where
  go_on_with : Bytes → Flow
  return_with : Bytes → Flow

abbrev is_nil : Bytes → Bool
is_nil [] = true
is_nil (_ ∷ _) = false

abbrev pub given {ℓ} : {A : Type ℓ} → List A → Bool
given [] = false
given (_ ∷ _) = true

-- What the user gives: a password as code units, a recovery key as the groups of its digits; []
-- where there is none.
pub record Credentials : Type 0 where
  pub password : List ℕ
  pub recovery_key : List (List ℕ)

module _ (sha256 : Bytes → Bytes) (new_cipher : Bytes → Result (Bytes → Bytes))
    (counter_mode : (Bytes → Bytes) → Bytes → Bytes → Bytes) where
  unfoldable pub stretched : Credentials → Struct → Bytes → Result Flow
  unfolding encryption_method password_utf16le
  stretched c fields key =
      let salt = get_nums "Salt" fields in
      if (encryption_method fields == 0x1001) && given c.password
      then ok (
          go_on_with
            (stretch_key sha256 (sha256 (sha256 (password_utf16le c.password))) salt 0x100000))
      else if (encryption_method fields == 0x1000) && given c.recovery_key
      then (derive_key_from_recovery_key c.recovery_key >>= λ derived.
          ok (go_on_with (stretch_key sha256 (sha256 derived) salt 0x100000)))
      else ok (go_on_with key)

  -- The decryption of an AES-CCM datum: the expected tag is computed, and what `VerifyTag` says is
  -- dropped.
  unfoldable pub open_vmk : Bytes → Bytes → Bytes → Slice → Result Bytes
  unfolding get_mac
  open_vmk key aad nonce encrypted = get_mac encrypted >>= λ mac.
      open_ccm new_cipher counter_mode key encrypted.bytes nonce >>= λ decrypted.
      suffix (full decrypted) 16 >>= λ message.
      get_expected_tag new_cipher key nonce aad message.bytes mac >>= λ expected.
      let verified = equal16 mac expected in ok decrypted

  -- One datum nested in a master key. The additional data is the raw header of eight bytes.
  unfoldable pub vmk_step : Credentials → Struct → Datum → Bytes → Result Flow
  unfolding encryption_method stretched open_vmk
  vmk_step c vmk (key_datum header fields found) key =
      if not (encryption_method fields == 0x2000)
      then err bad_vmk_method
      else ok (go_on_with (if is_clear_key vmk then found else key))
  vmk_step c vmk (stretch_key_datum header fields rest) key = stretched c fields key
  vmk_step c vmk (aesccm_datum header nonce encrypted) key =
      if is_nil key
      then ok (go_on_with key)
      else (open_vmk key (header_bytes header) nonce encrypted >>= λ vmk_key.
          ok (return_with vmk_key))
  vmk_step c vmk _ key = ok (go_on_with key)

  -- The three loops of `DecryptVMK`; the key lives across all of them.
  unfoldable pub vmk_datums : Credentials → Struct → Datums → Bytes → Result Flow
  unfolding vmk_step
  vmk_datums c vmk no_datums key = ok (go_on_with key)
  vmk_datums c vmk (datum_and d ds) key = vmk_step c vmk d key >>= elim [
    | return_with found ↦ ok (return_with found)
    | go_on_with key' ↦ vmk_datums c vmk ds key'
  ]

  unfoldable pub vmk_block : Credentials → Datums → Bytes → Result Flow
  unfolding vmk_datums
  vmk_block c no_datums key = ok (go_on_with key)
  vmk_block c (datum_and (master_key_datum header vmk nested) ds) key =
      vmk_datums c vmk nested key >>= elim [
        | return_with found ↦ ok (return_with found)
        | go_on_with key' ↦ vmk_block c ds key'
      ]
  vmk_block c (datum_and d ds) key = vmk_block c ds key

  unfoldable pub decrypt_vmk : Credentials → List MetadataBlock → Bytes → Result Bytes
  unfolding vmk_block
  decrypt_vmk c [] key = err no_vmk_key
  decrypt_vmk c (block ∷ blocks) key =
      vmk_block c block.datums key
      >>= elim [ return_with found ↦ ok found | go_on_with key' ↦ decrypt_vmk c blocks key' ]

  -- `DecryptFVEK`: the master key itself is the first candidate.
  unfoldable pub fvek_candidates : Bytes → Datums → List Bytes → Result (List Bytes)
  fvek_candidates vmk_key no_datums found = ok found
  fvek_candidates vmk_key (datum_and (aesccm_datum header nonce encrypted) ds) found =
      open_ccm new_cipher counter_mode vmk_key encrypted.bytes nonce >>= λ key.
      fvek_candidates vmk_key ds (found ++ (key ∷ []))
  fvek_candidates vmk_key (datum_and d ds) found = fvek_candidates vmk_key ds found

  unfoldable pub decrypt_fvek : Bytes → List MetadataBlock → Result (List Bytes)
  unfolding fvek_candidates
  decrypt_fvek vmk_key [] = crash
  decrypt_fvek vmk_key (block ∷ blocks) = fvek_candidates vmk_key block.datums (vmk_key ∷ [])

  -- `ToUint16(key[20:])`, `ToUint16(key[16:])` and `key[24]` of a key container.
  unfoldable pub container_fields : Bytes → Result (ℕ × ℕ × ℕ)
  container_fields key = suffix (full key) 20 >>= λ a. to_uint16 a.bytes >>= λ version.
      suffix (full key) 16 >>= λ b.
      to_uint16 b.bytes >>= λ size. at (full key) 24 >>= λ counter. ok (version, size, counter)

  unfoldable pub choose_fvek : ℕ → List Bytes → Result Bytes
  unfolding container_fields
  choose_fvek counter [] = err no_fvek
  choose_fvek counter (key ∷ keys) = container_fields key >>= λ (version, size, c).
      elim (version == 1 && size == 44 && ltb counter c) [
        | true ↦ suffix (full key) 28 >>= λ rest. ok rest.bytes
        | false ↦ choose_fvek counter keys
      ]

  -- `Decrypt`.
  unfoldable pub unlock : Credentials → List MetadataBlock → Result Bytes
  unfolding decrypt_vmk decrypt_fvek container_fields choose_fvek
  unlock c blocks = decrypt_vmk c blocks [] >>= λ vmk_key.
      container_fields vmk_key >>= λ (version, size, counter).
      (if version == 1 && size == 44 then suffix (full vmk_key) 28 else ok (full vmk_key))
      >>= λ key. decrypt_fvek key.bytes blocks >>= λ candidates. choose_fvek counter candidates
