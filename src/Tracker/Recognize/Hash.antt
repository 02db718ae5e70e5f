-- ===== src/Tracker/Recognize/Hash.antt =====
-- The key under which a request's swarm is kept.
use weightless.Prelude.{◌-◌, ◌≡◌, ◌↔◌, sym, ap, ◌∙◌, codes, length, replicate, take_append}
use weightless.Prelude.Hex.{hex_encode, hex_encode-injective}
use weightless.Tracker.Query
use weightless.Tracker.Query.{Query}
use weightless.Tracker.Recognize.{AnnounceParams, ok, recognize_announce, info_hash_hex}
use weightless.Tracker.Recognize.Bounds.{hash_bound, recognize_announce-Steps}

-- The key is the hexadecimal text of exactly the bytes that were sent: the padding is not in it.
pub info_hash_hex-recognize_announce :
    (q : Query) (p : AnnounceParams)
    → recognize_announce q ≡ ok p
    → info_hash_hex p ≡ hex_encode (Query.get (codes "info_hash") q)
unfolding info_hash_hex
info_hash_hex-recognize_announce q p h =
    let steps = recognize_announce-Steps q {p = p} h in
    rw (steps.len_eq, steps.hash_eq, take_append steps.raw (replicate (32 - length steps.raw) 0))
      (ap hex_encode (hash_bound (Query.get (codes "info_hash") q) {r = steps.raw} steps.raw_ok).0)

-- Two recognized requests share a swarm exactly when they sent the same hash.
pub same_swarm_iff :
    (q r : Query) (p t : AnnounceParams)
    → recognize_announce q ≡ ok p
    → recognize_announce r ≡ ok t
    → (info_hash_hex p ≡ info_hash_hex t)
      ↔ (Query.get (codes "info_hash") q ≡ Query.get (codes "info_hash") r)
same_swarm_iff q r p t hq hr =
    let kq = info_hash_hex-recognize_announce q p hq in
    let kr = info_hash_hex-recognize_announce r t hr in
    (λ e. hex_encode-injective _ _ (sym kq ∙ e ∙ kr), λ e. kq ∙ ap hex_encode e ∙ sym kr)
