-- ===== src/Transport/Tests.antt =====
-- Runs of the payload generator.
use nim_vortex.Prelude.{◌≡◌, refl, Option, none, some, [], ◌∷◌, map, length, arith}
use nim_vortex.Prelude.Bytes.{Bytes, codes, equal}
use nim_vortex.Prelude.Text.{join_comma, show, show_onto, is_digit}
use nim_vortex.Prelude.Dict.{lookup}
use nim_vortex.Prelude.Ints.{
  pos, digits_from, digit_count, signed, is_ascii_space, skip_spaces, keep_inner, trim_right,
  int_of_bytes,
}
use nim_vortex.H3.Requests.{Codecs}
use nim_vortex.Transport.{repeat}
use nim_vortex.Transport.Catalog.{
  json_object, json_array, json_item, xml, xml_item, csv, csv_row, urlencode, quote_plus,
  is_unreserved, hex_digit, fox_text, join, each, padded, form_fields,
}
use nim_vortex.Transport.Stats.{
  get_server_stats, first_field, with_rss, second_field, split, starts_word, onto_first, sampled,
  index_error,
}
use nim_vortex.Transport.Stats.Report.{report, get_server_stats-report}
use nim_vortex.Transport.Sessions.{
  Compressors, compress, get, pinned, pin_check, pin_version, meets, pin_error,
}
use nim_vortex.Transport.Sessions.Decodes.{AreInverse, Decodes, decode_body-compress}
use nim_vortex.Transport.{gen_chunk, body_gen}
use nim_vortex.Transport.Payload.{payload, gen_chunk-payload, Covers, body_gen-Covers}

gen_chunk-payload_example : gen_chunk 254 4 ≡ payload 254 4
gen_chunk-payload_example = gen_chunk-payload 254 4

wraps_around : payload 254 4 ≡ 254 ∷ 255 ∷ 0 ∷ 1 ∷ []
unfolding payload
wraps_around = refl

body_gen-Covers_example : Covers 600 256 0 (body_gen 600 256)
body_gen-Covers_example = body_gen-Covers 600 256 (omega arith)

-- The lengths of the bodies that `payload_mix` builds, the texts of the ratios left out.
catalog_lengths :
    map length
      (json_object ∷ json_array (λ i. []) ∷ xml ∷ csv ∷ urlencode form_fields ∷ fox_text 1280 ∷ [])
    ≡ 313 ∷ 8640 ∷ 2603 ∷ 3448 ∷ 102 ∷ 1280 ∷ []
unfolding json_object json_array json_item xml xml_item csv csv_row urlencode quote_plus
    is_unreserved hex_digit fox_text repeat join join_comma each padded show show_onto
catalog_lengths = refl

form_text :
    urlencode form_fields
    ≡ codes
        "q=the+quick+%26+brown+%3D+fox&name=+query+with+spaces&sym=a%26b%3Dc+d&u=caf%C3%A9+na%C3%AFve+%E2%9C%93"
unfolding urlencode quote_plus is_unreserved hex_digit
form_text = refl

get_server_stats-report_example :
    get_server_stats 200 (report 123456 789 (some 42))
    ≡ sampled (pos 123456) (pos 789) (some (pos 42))
get_server_stats-report_example = get_server_stats-report 123456 789 (some 42) (omega arith)

one_field : get_server_stats 200 (codes " 12\n") ≡ index_error
unfolding get_server_stats first_field with_rss second_field split starts_word onto_first
    int_of_bytes digit_count signed skip_spaces trim_right keep_inner is_ascii_space digits_from
    is_digit
one_field = refl

-- Compressors that mark what they have compressed.
abbrev marking : Compressors
marking = record { gzip = λ b. 1 ∷ b; brotli = λ b. 2 ∷ b; zstd = λ b. 3 ∷ b }

abbrev unmark : Bytes → Option Bytes
unmark [] = none
unmark (c ∷ b) = some b

abbrev unmarking : Codecs
unmarking = record { gunzip = unmark; unbrotli = unmark; unzstd = unmark }

marking-AreInverse : AreInverse marking unmarking
marking-AreInverse = record {
  gunzip-gzip = λ raw. refl;
  unbrotli-brotli = λ raw. refl;
  unzstd-zstd = λ raw. refl;
}

decode_body-compress_example :
    Decodes unmarking (codes "body") (compress marking (codes "br") (codes "body"))
decode_body-compress_example =
    decode_body-compress marking unmarking (codes "br") (codes "body") marking-AreInverse

downgrade :
    get (codes "h2") (record { version = codes "HTTP/1.1"; status = 200; ct = none; chunks = [] })
    ≡ pin_error
unfolding get pinned pin_check pin_version meets lookup equal
downgrade = refl
