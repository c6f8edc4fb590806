-- ===== src/Psi/Section.antt =====
-- What a receiver reads from a section, common to both tables (ISO/IEC 13818-1, 2.4.4), and the
-- checksum that closes it.
use sptsmuxer.Base.{
  ℕ, suc, ◌+◌, ◌-◌, ◌*◌, ◌/◌, ◌%◌, ◌^◌, ◌≤◌, ◌<◌, ◌≡◌, refl, ◌∙◌, arith, [], ◌∷◌, ◌++◌,
  append_assoc, Bytes, length, length-append, take, drop, take-append, Option, some, none, leb,
  ◌==◌, if◌then◌else◌, ◌&&◌, bit_or, table, all_below, store-append, load_lem, ok,
}
use sptsmuxer.Bits.{low_byte}
use sptsmuxer.Crc.{calc_crc32, crc_bytes}
use sptsmuxer.Crc.Residue.{calc_crc32-append-crc_bytes}
use sptsmuxer.Psi.{
  pid_bytes, write_crc, PsiSectionHeadInfo, section_header_bytes, psi_section_header_set,
}

pub record Section : Type 0 where
  pub table_id : ℕ
  pub id : ℕ
  pub body : Bytes

-- The section proper: table id, length, id, version and numbers, the body, and the checksum.
-- `whole` is the section with its checksum, which must come out as 0.
abbrev read_fields : Bytes → ℕ → Bytes → Option Section
read_fields whole len (table_id ∷ l1 ∷ l0 ∷ i1 ∷ i0 ∷ version ∷ number ∷ last ∷ rest) =
    if calc_crc32 whole == 0 && l1 / 128 == 1 && version % 2 == 1
    then some (record { table_id = table_id; id = i1 * 2 ^ 8 + i0; body = take (len - 9) rest })
    else none
read_fields whole len _ = none

abbrev read_length : Bytes → Option Section
read_length (table_id ∷ l1 ∷ l0 ∷ rest) =
    let len = l1 % 16 * 2 ^ 8 + l0 in
    if leb 9 len && leb len (length rest)
    then read_fields (take (3 + len) (table_id ∷ l1 ∷ l0 ∷ rest)) len (table_id ∷ l1 ∷ l0 ∷ rest)
    else none
read_length _ = none

-- The payload of a packet that starts a section: a pointer field, then the section behind it.
unfoldable pub read_section : Bytes → Option Section
read_section [] = none
read_section (pointer ∷ rest) = read_length (drop pointer rest)

-- The message of a section of table `table_id`, up to its checksum.
abbrev pub message : ℕ → ℕ → Bytes → Bytes
message table_id id body =
    table_id ∷ 0xb0 ∷ (9 + length body) ∷ (id / 2 ^ 8) ∷ (id % 2 ^ 8) ∷ 0xc1 ∷ 0 ∷ 0 ∷ body

abbrev pub closed : Bytes → Bytes → Bytes
closed m rest = 0 ∷ (m ++ (crc_bytes (calc_crc32 m) ++ rest))

pub write_crc_lem :
    (m rest : Bytes) (datalen off : ℕ)
    → datalen ≡ length m
    → off ≡ suc (length m)
    → 4 ≤ length rest
    → write_crc (0 ∷ (m ++ rest)) datalen off ≡ ok (closed m (drop 4 rest))
unfolding write_crc
write_crc_lem m rest datalen off e o h =
    rw
      (
        load_lem (0 ∷ (m ++ rest)) 1 datalen (omega (arith, length-append m rest)),
        take-append datalen m rest e,
        store-append (0 ∷ m) rest (crc_bytes (calc_crc32 m)) off o (unfold crc_bytes in h),
      )
      (unfold crc_bytes in refl)

length-crc_bytes : (crc : ℕ) → length (crc_bytes crc) ≡ 4
unfolding crc_bytes
length-crc_bytes crc = refl

pub length-crc_bytes-append :
    (crc : ℕ) (rest : Bytes) → length (crc_bytes crc ++ rest) ≡ 4 + length rest
unfolding crc_bytes
length-crc_bytes-append crc rest = omega arith

take_closed :
    (m c rest : Bytes) (n : ℕ) → n ≡ length m + length c → take n (m ++ (c ++ rest)) ≡ m ++ c
take_closed m c rest n e =
    rw (← append_assoc m c rest) (take-append n (m ++ c) rest (omega (arith, e, length-append m c)))

-- A closed section is read back: its table, its id and its body.
pub read_section-closed :
    (table_id id : ℕ) (body rest : Bytes)
    → length body < 247
    → id < 2 ^ 16
    → read_section (closed (message table_id id body) rest)
      ≡ some (record { table_id = table_id; id = id; body = body })
unfolding read_section
read_section-closed table_id id body rest h hid =
    rw
      (
        take_closed (message table_id id body) crc rest (3 + (0 + (9 + length body)))
            (omega (arith, length-crc_bytes (calc_crc32 (message table_id id body)))),
        calc_crc32-append-crc_bytes (message table_id id body),
        take-append (0 + (9 + length body) - 9) body (crc ++ rest) (omega arith),
      )
      (ground (
        arith,
        length-append body (crc ++ rest),
        length-append crc rest,
        length-crc_bytes (calc_crc32 (message table_id id body)),
      ))
  where
    crc : Bytes
    crc = crc_bytes (calc_crc32 (message table_id id body))

pub pid_bytes_lem :
    (pid : ℕ) → pid < 2 ^ 13 → pid_bytes pid ≡ (224 + pid / 2 ^ 8) ∷ (pid % 2 ^ 8) ∷ []
unfolding pid_bytes
pid_bytes_lem pid h = ground (arith, low_byte pid, high_bits (pid / 2 ^ 8) (omega arith))
  where
    high_bits : (x : ℕ) → x < 32 → bit_or 0xe0 x ≡ 224 + x
    high_bits x hx = table 32 (bit_or 0xe0) (λ n. 224 + n) x (unfold all_below in refl) hx

-- The header of both tables, at their first length of 13.
abbrev pub head_info : ℕ → ℕ → PsiSectionHeadInfo
head_info table_id id = record {
  table_id = table_id;
  section_length = 0x0d;
  id = id;
  version_number = 0;
  section_number = 0;
  last_section_number = 0;
}

pub section_header_set_lem :
    (buf : Bytes) (table_id id : ℕ)
    → 9 ≤ length buf
    → id < 2 ^ 16
    → psi_section_header_set buf (head_info table_id id)
      ≡ ok (
          (0 ∷ table_id ∷ 0xb0 ∷ 13 ∷ (id / 2 ^ 8) ∷ (id % 2 ^ 8) ∷ 0xc1 ∷ 0 ∷ 0 ∷ [])
          ++ drop 9 buf)
unfolding psi_section_header_set section_header_bytes
section_header_set_lem buf table_id id room h =
    store-append [] buf (section_header_bytes (head_info table_id id)) 0 refl room
    ∙ ground (arith, low_byte id)
