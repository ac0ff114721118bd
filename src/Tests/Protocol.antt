-- ===== src/Tests/Protocol.antt =====
-- Runs of the theorems on include/protocol.h, include/wildcard.h and src/fdc/fdc.c's blocks.
use fdc_sds_pio.Prelude.{
  Bytes, IsBytes, [], arith, codes, false, refl, replicate, set, some, true, ℕ, ◌++◌, ◌==◌, ◌∷◌,
  ◌≡◌, ◌≢◌,
}
use fdc_sds_pio.Protocol.{block_valid, track_in_bounds}
use fdc_sds_pio.Protocol.Corruption.{block_valid-set}
use fdc_sds_pio.Wildcard.{wildcard_match_ci}
use fdc_sds_pio.Wildcard.Reference.{NoStar, glob}
use fdc_sds_pio.Wildcard.Correct.{wildcard_match_ci-glob}
use fdc_sds_pio.Tests.World.{all_small-IsBytes}
use fdc_sds_pio.Fdc.Handlers.{build_block}
use fdc_sds_pio.Fdc.Handlers.Blocks.{IsBlock, build_block-IsBlock}

-- READ of drive 1, track 5, 137 bytes, not yet closed.
abbrev read_block : Bytes
read_block = codes "READ" ++ (5 ∷ 16 ∷ 137 ∷ 0 ∷ 0 ∷ 0 ∷ [])

small : IsBytes read_block
small = all_small-IsBytes read_block refl

abbrev closed_block : Bytes
closed_block = codes "READ" ++ (5 ∷ 16 ∷ 137 ∷ 0 ∷ 186 ∷ 1 ∷ [])

accepted : block_valid closed_block ≡ true
unfolding block_valid
accepted = refl

block_valid-set_example : block_valid (set closed_block 4 6) ≡ false
block_valid-set_example =
    block_valid-set closed_block 4 6 (all_small-IsBytes closed_block refl) refl (omega arith)
      (omega arith) (λ e. absurd (omega (arith, e))) accepted

fits : track_in_bounds 76 4384 337568 ≡ true
unfolding track_in_bounds
fits = refl

no_star : NoStar (codes "CPM.DSK")
no_star =
    let differ : (c : ℕ) → (c == b'*') ≡ false → c ≢ b'*' =
      λ c h e. absurd (ground (arith, h, e)) in
    (
      differ 67 refl,
      (
        differ 80 refl,
        (
          differ 77 refl,
          (differ 46 refl, (differ 68 refl, (differ 83 refl, (differ 75 refl, tt)))),
        ),
      ),
    )

wildcard_match_ci-glob_example :
    wildcard_match_ci (codes "*.dsk") (codes "CPM.DSK")
    ≡ some (glob (codes "*.dsk") (codes "CPM.DSK"))
wildcard_match_ci-glob_example = wildcard_match_ci-glob (codes "*.dsk") (codes "CPM.DSK") no_star

build_block-IsBlock_example :
    IsBlock (build_block (replicate 10 0) (codes "STAT") 0 5) (codes "STAT") 0 5
build_block-IsBlock_example =
    build_block-IsBlock (replicate 10 0) (codes "STAT") 0 5
      (all_small-IsBytes (replicate 10 0) refl) (all_small-IsBytes (codes "STAT") refl) refl refl
      (omega arith) (omega arith)
