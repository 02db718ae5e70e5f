-- ===== src/Client/Bitfield/Tests.antt =====
-- Runs of the bitfields.
use weightless.Prelude.{◌+◌, ◌/◌, ◌≡◌, refl, false, ◌&&◌, [], ◌∷◌, ltb}
use weightless.Client.Bitfield.{pos, negsuc, has_piece, set_piece, new_bitfield}
use weightless.Client.Bitfield.Pieces.{set_pieces, is_in, has_piece-set_pieces-new_bitfield}

highest_first : set_piece (pos 9) (new_bitfield 10) ≡ 0 ∷ 64 ∷ []
unfolding set_piece new_bitfield
highest_first = refl

negative_absent : has_piece (negsuc 0) (255 ∷ []) ≡ false
unfolding has_piece
negative_absent = refl

has_piece-set_pieces-new_bitfield_example :
    has_piece (pos 3) (set_pieces (3 ∷ 9 ∷ 3 ∷ []) (new_bitfield 10))
    ≡ (ltb (3 / 8) ((10 + 7) / 8) && is_in 3 (3 ∷ 9 ∷ 3 ∷ []))
has_piece-set_pieces-new_bitfield_example = has_piece-set_pieces-new_bitfield 10 (3 ∷ 9 ∷ 3 ∷ []) 3
