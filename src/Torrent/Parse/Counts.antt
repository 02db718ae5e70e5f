-- ===== src/Torrent/Parse/Counts.antt =====
-- The count of pieces that parseInfoMap returns.
use weightless.Prelude.{
  ℕ, ◌+◌, ◌-◌, ◌*◌, ◌/◌, ◌^◌, ◌≤◌, ◌<◌, ◌≡◌, refl, sym, ap, ◌∙◌, true, false, some, List, Bytes,
  leb, length, arith, subst,
}
use weightless.Prelude.Word.{add64}
use native.Mathlib.Nat.{div-add-mod', mod-lt}
use weightless.Torrent.Parse.{
  Fields, FileEntry, TorrentMeta, parsed, is_positive, is_none, sum_lengths, pieces_checked, wanted,
  is_mismatch, recount, filled, parse_info_map,
}
use weightless.Torrent.Parse.Layout.{parse_info_map-Passed, counted_lem}

-- In range, nothing wraps around.
wanted_lem : (total p : ℕ) → 0 < p → total + p < 2 ^ 63 → wanted total p ≡ ((total + p) - 1) / p
wanted_lem total p h k =
    let sum : add64 (add64 total p) (2 ^ 64 - 1) ≡ (total + p) - 1 = omega (arith, h, k) in
    let fits : leb (2 ^ 63) ((total + p) - 1) ≡ false = ground (arith, k) in rw (sum, fits) refl

-- As many pieces as cover the files
pub record Covers (n p total : ℕ) : Type 0 where
  pub reaches : total ≤ n * p
  pub no_more : n * p < total + p

Covers-div : (total p : ℕ) → 0 < p → Covers (((total + p) - 1) / p) p total
Covers-div total p h =
    let whole = div-add-mod' ((total + p) - 1) p in
    let rest = mod-lt ((total + p) - 1) h in
    record { reaches = omega (arith, h, whole, rest); no_more = omega (arith, h, whole, rest) }

pub record IsCut (meta : TorrentMeta) (hashes : Bytes) : Type 0 where
  pub positive : 0 < meta.piece_length
  pub each : length hashes ≡ 20 * meta.piece_count
  pub covers : Covers meta.piece_count meta.piece_length meta.total_size

filled-IsCut :
    (name : Bytes) (p : ℕ) (hashes : Bytes) (files : List FileEntry) (total : ℕ)
    → is_positive p ≡ true
    → pieces_checked (some hashes) ≡ true
    → is_mismatch p (some hashes) files total ≡ false
    → is_none files ≡ false
    → total + p < 2 ^ 63
    → IsCut (filled name p (some hashes) files total) hashes
filled-IsCut name p hashes files total pos chk same there k =
    let above : 0 < p = ground (arith, pos) in
    let count : length hashes / 20 ≡ wanted total p = ground (arith, same, pos, there) in
    let again : recount p (some hashes) total ≡ length hashes / 20 = ground (arith, count) in
    let exact : recount p (some hashes) total ≡ ((total + p) - 1) / p =
      again ∙ count ∙ wanted_lem total p above k in
    record {
      positive = above;
      each = ground (arith, chk, again);
      covers = subst (λ n. Covers n p total) (sym exact) (Covers-div total p above);
    }

with_same : {a b : TorrentMeta} (hashes : Bytes) → a ≡ b → IsCut a hashes → IsCut b hashes
with_same hashes e h = subst (λ m. IsCut m hashes) e h

-- An accepted info dict with a pieces string and with files, whose total size and piece length together stay below 2 ^ 63, has a positive piece length and one SHA-1 hash of 20 bytes per piece, and the pieces reach over the whole total size with no piece to spare.
pub parse_info_map-IsCut :
    (info : Fields) (meta : TorrentMeta) (hashes : Bytes)
    → parse_info_map info ≡ parsed meta
    → meta.pieces ≡ some hashes
    → is_none meta.files ≡ false
    → meta.total_size + meta.piece_length < 2 ^ 63
    → IsCut meta hashes
parse_info_map-IsCut info meta hashes h with_hashes with_files small =
    let k = parse_info_map-Passed info meta h in
    let total = sum_lengths 0 k.files in
    let (same, e) = counted_lem k.name k.piece_length k.pieces k.files total meta k.result in
    let some_hashes : k.pieces ≡ some hashes = ap TorrentMeta.pieces e ∙ with_hashes in
    let same' : is_mismatch k.piece_length (some hashes) k.files total ≡ false =
      ap (λ ps. is_mismatch k.piece_length ps k.files total) (sym some_hashes) ∙ same in
    let fits : total + k.piece_length < 2 ^ 63 =
      subst (λ m. m.total_size + m.piece_length < 2 ^ 63) (sym e) small in
    with_same hashes
      (ap (λ ps. filled k.name k.piece_length ps k.files total) (sym some_hashes) ∙ e)
      (filled-IsCut k.name k.piece_length hashes k.files total k.positive
        (ap pieces_checked (sym some_hashes) ∙ k.checked) same'
        (ap is_none (ap TorrentMeta.files e) ∙ with_files) fits)
