-- ===== src/Payload/Set/Packed.antt =====
-- A set made of a pack, in src/payload.rs.
use rtrtr.Base.{◌≡◌, refl, sym, ap, ◌∙◌, [], ◌∷◌, some, arith, length, slice, le→leb, append-nil}
use rtrtr.Order.{Order}
use rtrtr.Payload.Pack.{Pack}
use rtrtr.Payload.Diff.Overlap.{slice-length}
use rtrtr.Payload.Block.{as_slice, len, contents}
use rtrtr.Payload.Block
use rtrtr.Payload.Set.{Set, flatten, from_block, from_pack, IsWellFormed}

module _ {A : Type 0} ⦃o : Order A⦄ where
  -- A set made of a pack.
  pub from_pack_lem :
      (p : Pack A)
      → (s : Set A) × (from_pack p ≡ some s) × (flatten s.blocks ≡ p.items) × IsWellFormed s
  unfolding from_pack from_block len as_slice flatten contents Block.from_pack slice
  from_pack_lem p = (
    record { blocks = Block.from_pack p ∷ []; len = length (slice p.items 0 (length p.items)) },
    rw
        (
          le→leb 0 (length p.items) (omega arith),
          le→leb (length p.items) (length p.items) (omega arith),
        )
        refl,
    whole,
    record {
      in_range = (record { ordered = omega arith; bounded = omega arith }, tt);
      counted = ap length (sym (append-nil (slice p.items 0 (length p.items))));
    },
  )
    where
      whole : flatten (Block.from_pack p ∷ []) ≡ p.items
      whole = append-nil (slice p.items 0 (length p.items)) ∙ slice-length p.items
