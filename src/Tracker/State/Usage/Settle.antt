-- ===== src/Tracker/State/Usage/Settle.antt =====
-- The loop that subtracts what was sent touches each user of the payload once.
use weightless.Prelude.{
  ◌≡◌, refl, true, false, Option, none, some, [], ◌∷◌, Bytes, ◌===◌, ===_iff, arith, inl, inr,
  Bool-cases, ◌∙◌, sym, subst,
}
use weightless.Prelude.Dict
use weightless.Prelude.Dict.{Dict, get-put, get-remove, Distinct}
use weightless.Prelude.Word.{sub64}
use weightless.Tracker.State.{UserUsage, sub_usage}
use weightless.Tracker.State.Usage.{Direction, up, down, amount, field, settle_one, settle_loop}

settle_one_other :
    (id u : Bytes) (sent : UserUsage) (live : Option UserUsage) (users : Dict UserUsage)
    → (id === u) ≡ false
    → Dict.get u (settle_one id sent live users) ≡ Dict.get u users
unfolding settle_one
settle_one_other id u sent none users ne = refl
settle_one_other id u sent (some live) users ne =
    let rest = sub_usage live sent in ground (arith, get-remove id u users, get-put id u rest users)

-- What one user has left.
settle_one_self :
    (d : Direction) (u : Bytes) (sent live : UserUsage) (users : Dict UserUsage)
    → Dict.get u users ≡ some live
    → amount d (Dict.get u (settle_one u sent (some live) users))
      ≡ sub64 (field d live) (field d sent)
unfolding settle_one
settle_one_self up u sent live users h =
    let rest = sub_usage live sent in
    ground (arith, get-remove u u users, get-put u u rest users, ===_iff u u)
settle_one_self down u sent live users h =
    let rest = sub_usage live sent in
    ground (arith, get-remove u u users, get-put u u rest users, ===_iff u u)

-- A user who is not in the payload keeps what is there.
pub settle_loop_absent :
    (payload : Dict UserUsage) (u : Bytes) (users : Dict UserUsage)
    → Dict.get u payload ≡ none
    → Dict.get u (settle_loop payload users) ≡ Dict.get u users
unfolding settle_loop Dict.get
settle_loop_absent [] u users h = refl
settle_loop_absent ((id, sent) ∷ payload) u users h =
    settle_loop_absent payload u _ (ground arith)
    ∙ settle_one_other id u sent (Dict.get id users) users (ground arith)

get_here :
    (id u : Bytes) (p : UserUsage) (payload : Dict UserUsage)
    → (id === u) ≡ true
    → some p ≡ Dict.get u ((id, p) ∷ payload)
unfolding Dict.get
get_here id u p payload h = ground arith

get_there :
    (id u : Bytes) (p : UserUsage) (payload : Dict UserUsage)
    → (id === u) ≡ false
    → Dict.get u ((id, p) ∷ payload) ≡ Dict.get u payload
unfolding Dict.get
get_there id u p payload h = ground arith

-- The loop subtracts, from what a user of the payload has, exactly what was sent.
pub amount-settle_loop :
    (d : Direction) (payload : Dict UserUsage) (u : Bytes) (users : Dict UserUsage)
    {sent live : UserUsage}
    → Distinct payload
    → Dict.get u payload ≡ some sent
    → Dict.get u users ≡ some live
    → amount d (Dict.get u (settle_loop payload users)) ≡ sub64 (field d live) (field d sent)
unfolding settle_loop
amount-settle_loop d [] u users distinct h l = unfold Dict.get in cc
amount-settle_loop d ((id, p) ∷ payload) u users {sent} {live} distinct h l =
    elim (Bool-cases (id === u)) [
      | inl here ↦
          let same : id ≡ u = (===_iff id u).0 here in
          let sent_here : p ≡ sent = cc (get_here id u p payload here, h) in
          let gone : Dict.get u payload ≡ none =
            subst (λ k. Dict.get k payload ≡ none) same distinct.0 in
          rw
            (
              settle_loop_absent payload u (settle_one id p (Dict.get id users) users) gone,
              same,
              l,
              sent_here,
            )
            (settle_one_self d u sent live users l)
      | inr other ↦
          amount-settle_loop d payload u (settle_one id p (Dict.get id users) users) distinct.1
            (sym (get_there id u p payload other) ∙ h)
            (settle_one_other id u p (Dict.get id users) users other ∙ l)
    ]
