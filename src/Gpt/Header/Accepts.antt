-- ===== src/Gpt/Header/Accepts.antt =====
-- A GPT header that is written out and sealed by its checksum is read back by `parse_gpt_header`.
use oukitel_rt7_linux.Prelude.{
  ◌≡◌, refl, ap, sym, ◌++◌, append_assoc, ok, arith, length, replicate, length-append, take-append,
  drop-append,
}
use oukitel_rt7_linux.Prelude.Int.{pos}
use oukitel_rt7_linux.Python.Text.{Text}
use oukitel_rt7_linux.Python.Bytes.{Bytes, slice-append, to_le, length-to_le}
use oukitel_rt7_linux.Python.Struct.{Values, Fits, pack, length-pack, unpack-pack}
use oukitel_rt7_linux.Gpt.Defs.{
  GptHeader, gpt_header_format, gpt_header_size, header_of_values, efi_part,
}
use oukitel_rt7_linux.Gpt.Header.{
  masked_crc32, clear_crc_field, header_crc, read_header, parse_gpt_header,
}
use oukitel_rt7_linux.Gpt.Header.Sound.{parse_gpt_header_iff}

abbrev pub values_of_header : GptHeader → Values gpt_header_format
values_of_header h = (
  h.signature,
  (
    h.revision,
    (
      h.header_size,
      (
        h.header_crc32,
        (
          h.reserved,
          (
            h.current_lba,
            (
              h.backup_lba,
              (
                h.first_usable_lba,
                (
                  h.last_usable_lba,
                  (
                    h.disk_guid,
                    (
                      h.partition_entry_start_lba,
                      (
                        h.num_partition_entries,
                        (h.partition_entry_size, (h.partition_entry_crc32, tt)),
                      ),
                    ),
                  ),
                ),
              ),
            ),
          ),
        ),
      ),
    ),
  ),
)

unfoldable pub pack_header : GptHeader → Bytes
pack_header h = pack gpt_header_format (values_of_header h)

-- The header can be stored, and is one that the parser accepts.
pub record IsSealed (h : GptHeader) : Type 0 where
  pub fits : Fits gpt_header_format (values_of_header h)
  pub signed : h.signature ≡ efi_part
  pub version : h.revision ≡ 0x00010000
  pub sized : h.header_size ≡ gpt_header_size
  pub unreserved : h.reserved ≡ 0
  pub summed : h.header_crc32 ≡ masked_crc32 (pack_header (record h { header_crc32 = 0 }))

clear_crc_field-append :
    (a b c d e : Bytes)
    → length a ≡ 8
    → length b ≡ 4
    → length c ≡ 4
    → length d ≡ 4
    → clear_crc_field (a ++ (b ++ (c ++ (d ++ e)))) ≡ a ++ (b ++ (c ++ (replicate 4 0 ++ e)))
unfolding clear_crc_field
clear_crc_field-append a b c d e la lb lc ld = rw (regroup (d ++ e)) (
    rw (take-append before (d ++ e) 16 (omega (arith, long))) (
      rw (← (append_assoc before d e)) (
        rw (drop-append (before ++ d) e 20 (omega (arith, long, length-append before d)))
          (sym (regroup (replicate 4 0 ++ e))))))
  where
    before : Bytes
    before = a ++ (b ++ c)

    regroup : (x : Bytes) → a ++ (b ++ (c ++ x)) ≡ before ++ x
    regroup x = rw (append_assoc a (b ++ c) x, append_assoc b c x) refl

    long : length before ≡ 16
    long = omega (arith, length-append a (b ++ c), length-append b c)

clear_crc_field-pack_header :
    (h : GptHeader)
    → Fits gpt_header_format (values_of_header h)
    → clear_crc_field (pack_header h) ≡ pack_header (record h { header_crc32 = 0 })
unfolding pack_header pack to_le
clear_crc_field-pack_header h (sig, _) =
    clear_crc_field-append h.signature (to_le 4 h.revision) (to_le 4 h.header_size)
      (to_le 4 h.header_crc32) _ sig (length-to_le 4 h.revision) (length-to_le 4 h.header_size)
      (length-to_le 4 h.header_crc32)

length-pack_header :
    (h : GptHeader)
    → Fits gpt_header_format (values_of_header h)
    → length (pack_header h) ≡ gpt_header_size
unfolding pack_header
length-pack_header h fits = length-pack gpt_header_format (values_of_header h) fits

read_header-pack_header :
    (before after : Bytes) (h : GptHeader)
    → Fits gpt_header_format (values_of_header h)
    → read_header (before ++ (pack_header h ++ after)) (length before) ≡ h
unfolding read_header pack_header
read_header-pack_header before after h fits =
    rw (drop-append before (pack_header h ++ after) (length before) refl)
      (ap header_of_values (unpack-pack gpt_header_format (values_of_header h) after fits))

header_crc-pack_header :
    (before after : Bytes) (h : GptHeader)
    → IsSealed h
    → h.header_crc32 ≡ header_crc (before ++ (pack_header h ++ after)) (length before) h.header_size
unfolding header_crc
header_crc-pack_header before after h s =
    let long : h.header_size ≡ length (pack_header h) =
      omega (arith, s.sized, length-pack_header h s.fits) in
    rw (slice-append before (pack_header h) after h.header_size long)
      (rw (clear_crc_field-pack_header h s.fits) s.summed)

-- Wherever a sealed header stands in the data, it is read back as it was.
pub parse_gpt_header-pack_header :
    (before after : Bytes) (label : Text) (h : GptHeader)
    → IsSealed h
    → parse_gpt_header (before ++ (pack_header h ++ after)) (pos (length before)) label ≡ ok h
parse_gpt_header-pack_header before after label h s =
    (parse_gpt_header_iff (before ++ (pack_header h ++ after)) (length before) label h).1 (record {
      is_read = sym (read_header-pack_header before after h s.fits);
      signed = s.signed;
      version = s.version;
      at_least = omega (arith, s.sized);
      inside = omega (
        arith,
        s.sized,
        length-append before (pack_header h ++ after),
        length-append (pack_header h) after,
        length-pack_header h s.fits,
      );
      unreserved = s.unreserved;
      summed = header_crc-pack_header before after h s;
    })
