-- ===== src/Transport/Sessions/Decodes.antt =====
-- What `compress` writes, `decode_body` of the HTTP/3 client reads.
use nim_vortex.Prelude.{◌≡◌, refl, Bool, true, false, Option, none, some, [], if◌then◌else◌}
use nim_vortex.Prelude.Bytes.{Bytes, codes, equal}
use nim_vortex.H3.Requests.{Codecs, decoded, decode_body, from_codec}
use nim_vortex.Transport.Sessions.{Compressors, compress}

-- Each decompressor undoes its compressor.
pub record AreInverse (cs : Compressors) (ds : Codecs) : Type 0 where
  pub gunzip-gzip : (raw : Bytes) → ds.gunzip (cs.gzip raw) ≡ some raw
  pub unbrotli-brotli : (raw : Bytes) → ds.unbrotli (cs.brotli raw) ≡ some raw
  pub unzstd-zstd : (raw : Bytes) → ds.unzstd (cs.zstd raw) ≡ some raw

-- A body and its content-encoding that are read back as `raw`.
abbrev pub Decodes : Codecs → Bytes → Option (Bytes × Option Bytes) → Type 0
Decodes ds raw none = Unit
Decodes ds raw (some (body, enc)) = decode_body ds body enc ≡ decoded raw

if-Decodes :
    (ds : Codecs) (raw : Bytes) (b : Bool) (x y : Option (Bytes × Option Bytes))
    → Decodes ds raw x
    → Decodes ds raw y
    → Decodes ds raw (if b then x else y)
if-Decodes ds raw true x y h k = h
if-Decodes ds raw false x y h k = k

module _ (cs : Compressors) (ds : Codecs) (inv : AreInverse cs ds) (raw : Bytes) where
  gzip-Decodes : Decodes ds raw (some (cs.gzip raw, some (codes "gzip")))
  unfolding decode_body from_codec equal
  gzip-Decodes = rw (inv.gunzip-gzip raw) refl

  brotli-Decodes : Decodes ds raw (some (cs.brotli raw, some (codes "br")))
  unfolding decode_body from_codec equal
  brotli-Decodes = rw (inv.unbrotli-brotli raw) refl

  zstd-Decodes : Decodes ds raw (some (cs.zstd raw, some (codes "zstd")))
  unfolding decode_body from_codec equal
  zstd-Decodes = rw (inv.unzstd-zstd raw) refl

  raw-Decodes : Decodes ds raw (some (raw, none))
  unfolding decode_body
  raw-Decodes = refl

-- Whatever VORTEX_REQ_COMPRESSION is, a body that `compress` returns is decoded to the raw one by its own
-- content-encoding, when each decompressor undoes its compressor.
pub decode_body-compress :
    (cs : Compressors) (ds : Codecs) (comp raw : Bytes)
    → AreInverse cs ds
    → Decodes ds raw (compress cs comp raw)
unfolding compress
decode_body-compress cs ds comp raw inv =
    if-Decodes ds raw (equal comp []) _ _ (raw-Decodes cs ds inv raw) (
      if-Decodes ds raw (equal comp (codes "none")) _ _ (raw-Decodes cs ds inv raw) (
        if-Decodes ds raw (equal comp (codes "gzip")) _ _ (gzip-Decodes cs ds inv raw) (
          if-Decodes ds raw (equal comp (codes "br")) _ _ (brotli-Decodes cs ds inv raw)
            (if-Decodes ds raw (equal comp (codes "zstd")) _ _ (zstd-Decodes cs ds inv raw) tt))))
