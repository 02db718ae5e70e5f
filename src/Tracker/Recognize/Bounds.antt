-- ===== src/Tracker/Recognize/Bounds.antt =====
-- Every field of a recognized request is bounded.
use weightless.Prelude.{
  ℕ, ◌-◌, ◌^◌, ◌≤◌, ◌<◌, ◌≡◌, ◌⊎◌, refl, ap, subst, ◌∙◌, Option, none, some, Bytes, codes, arith,
  length, replicate, length-append, length-replicate,
}
use weightless.Prelude.Strconv.{parse_uint-le}
use weightless.Tracker.Query
use weightless.Tracker.Query.{Query}
use weightless.Tracker.Recognize.{
  AnnounceParams, Result, ok, err, Reason, ◌>>=◌, recognize_hash, recognize_peer_id, recognize_port,
  recognize_count, recognize_event, recognize_num_want, recognize_compact, padded,
  recognize_announce, max_num_want, invalid_uploaded, invalid_downloaded, invalid_left,
}

abbrev pub IsWanted : Option ℕ → Type 0
IsWanted none = Unit
IsWanted (some n) = n ≤ max_num_want

pub record IsBounded (p : AnnounceParams) : Type 0 where
  pub hash_length : (p.info_hash_len ≡ 20) ⊎ (p.info_hash_len ≡ 32)
  pub hash_array : length p.info_hash ≡ 32
  pub peer_id_array : length p.peer_id ≡ 20
  pub port_range : (1 ≤ p.port) × (p.port ≤ 65535)
  pub uploaded_range : p.uploaded < 2 ^ 63
  pub downloaded_range : p.downloaded < 2 ^ 63
  pub left_range : p.left < 2 ^ 63
  pub num_want_range : IsWanted p.num_want

ok-injective {ℓ} : {A : Type ℓ} {a b : A} → ok a ≡ ok b → a ≡ b
ok-injective h = cc

-- What holds of every success of `m >>= f`, from what holds behind each success of `m`.
abbrev Ensures {ℓ κ} : {A : Type ℓ} → (A → Type κ) → Result A → Type (ℓ ⊔ κ)
Ensures P m = (a : _) → m ≡ ok a → P a

bind-Ensures {ℓ κ μ} :
    {A : Type ℓ} {B : Type κ} (P : B → Type μ) (m : Result A) (f : A → Result B)
    → ((a : A) → m ≡ ok a → Ensures P (f a))
    → Ensures P (m >>= f)
bind-Ensures P (ok a) f h = h a refl
bind-Ensures P (err e) f h = λ b p. cc

ok-Ensures {ℓ κ} : {A : Type ℓ} (P : A → Type κ) (a : A) → P a → Ensures P (ok a)
ok-Ensures P a h = λ b p. subst P (ok-injective p) h

pub hash_bound :
    (raw : Bytes) {r : Bytes}
    → recognize_hash raw ≡ ok r
    → (r ≡ raw) × ((length r ≡ 20) ⊎ (length r ≡ 32))
unfolding recognize_hash
hash_bound raw {r} h = ground arith

peer_id_bound : (raw : Bytes) {r : Bytes} → recognize_peer_id raw ≡ ok r → length r ≡ 20
unfolding recognize_peer_id
peer_id_bound raw {r} h = ground arith

port_bound : (text : Bytes) {n : ℕ} → recognize_port text ≡ ok n → (1 ≤ n) × (n ≤ 65535)
unfolding recognize_port
port_bound text {n} h = ground (arith, parse_uint-le 65535 text {n = n})

count_bound : (e : Reason) (text : Bytes) {n : ℕ} → recognize_count e text ≡ ok n → n < 2 ^ 63
unfolding recognize_count
count_bound e text {n} h = ground arith

num_want_bound : (text : Bytes) {n : Option ℕ} → recognize_num_want text ≡ ok n → IsWanted n
unfolding recognize_num_want
num_want_bound text {n} h = ground arith

length-padded : (raw : Bytes) → length raw ≤ 32 → length (padded raw) ≡ 32
length-padded raw h = omega (
  arith,
  length-append raw (replicate (32 - length raw) 0),
  length-replicate {A = ℕ} (32 - length raw) 0,
)

-- What a successful run went through.
pub record Steps (q : Query) (p : AnnounceParams) : Type 0 where
  pub raw : Bytes
  pub raw_ok : recognize_hash (Query.get (codes "info_hash") q) ≡ ok raw
  pub peer_id_ok : recognize_peer_id (Query.get (codes "peer_id") q) ≡ ok p.peer_id
  pub port_ok : recognize_port (Query.get (codes "port") q) ≡ ok p.port
  pub uploaded_ok :
      recognize_count invalid_uploaded (Query.get (codes "uploaded") q) ≡ ok p.uploaded
  pub downloaded_ok :
      recognize_count invalid_downloaded (Query.get (codes "downloaded") q) ≡ ok p.downloaded
  pub left_ok : recognize_count invalid_left (Query.get (codes "left") q) ≡ ok p.left
  pub num_want_ok : recognize_num_want (Query.get (codes "numwant") q) ≡ ok p.num_want
  pub hash_eq : p.info_hash ≡ padded raw
  pub len_eq : p.info_hash_len ≡ length raw

pub recognize_announce-Steps :
    (q : Query) {p : AnnounceParams} → recognize_announce q ≡ ok p → Steps q p
unfolding recognize_announce
recognize_announce-Steps q {p} =
    let P = Steps q in
    bind-Ensures P (recognize_hash (Query.get (codes "info_hash") q)) _
      (λ raw e1. bind-Ensures P (recognize_peer_id (Query.get (codes "peer_id") q)) _ (λ peer e2.
        bind-Ensures P (recognize_port (Query.get (codes "port") q)) _ (λ port e3.
          bind-Ensures P (recognize_count invalid_uploaded (Query.get (codes "uploaded") q)) _
            (λ up e4.
              bind-Ensures P (recognize_count invalid_downloaded (Query.get (codes "downloaded") q))
                _
                (λ down e5.
                  bind-Ensures P (recognize_count invalid_left (Query.get (codes "left") q)) _
                    (λ left e6.
                      bind-Ensures P (recognize_event (Query.get (codes "event") q)) _ (λ event e7.
                        bind-Ensures P (recognize_num_want (Query.get (codes "numwant") q)) _
                          (λ want e8.
                            bind-Ensures P (recognize_compact (Query.get (codes "compact") q)) _
                              (λ compact e9. ok-Ensures P _ (record {
                                raw = raw;
                                raw_ok = e1;
                                peer_id_ok = e2;
                                port_ok = e3;
                                uploaded_ok = e4;
                                downloaded_ok = e5;
                                left_ok = e6;
                                num_want_ok = e8;
                                hash_eq = refl;
                                len_eq = refl;
                              }))))))))))
      p

-- A recognized request has a hash of 20 or 32 bytes in an array of 32, a peer id of 20 bytes, a port
-- from 1 to 65535, counters that are non-negative int64 values, and asks for at most 1000 peers.
pub recognize_announce-IsBounded :
    (q : Query) (p : AnnounceParams) → recognize_announce q ≡ ok p → IsBounded p
recognize_announce-IsBounded q p h =
    let steps = recognize_announce-Steps q {p = p} h in
    let raw_size = (hash_bound (Query.get (codes "info_hash") q) {r = steps.raw} steps.raw_ok).1 in
    record {
      hash_length = rw steps.len_eq raw_size;
      hash_array = ap length steps.hash_eq ∙ length-padded steps.raw (ground arith);
      peer_id_array = peer_id_bound (Query.get (codes "peer_id") q) steps.peer_id_ok;
      port_range = port_bound (Query.get (codes "port") q) steps.port_ok;
      uploaded_range =
          count_bound invalid_uploaded (Query.get (codes "uploaded") q) steps.uploaded_ok;
      downloaded_range =
          count_bound invalid_downloaded (Query.get (codes "downloaded") q) steps.downloaded_ok;
      left_range = count_bound invalid_left (Query.get (codes "left") q) steps.left_ok;
      num_want_range = num_want_bound (Query.get (codes "numwant") q) steps.num_want_ok;
    }
