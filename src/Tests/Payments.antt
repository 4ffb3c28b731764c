-- ===== src/Tests/Payments.antt =====
-- A split price and a rolled-back buffer.
use nftlox.Prelude.{some, arith}
use nftlox.Payment.Shares.{SplitsExactly, split_exact}
use nftlox.Payment.Split.{calculate_payment_split_from_units}
use nftlox.StateRoot.Buffer
use nftlox.StateRoot.Buffer.{
  BufferedMutation, queue, checkpoint, rollback_to, create_state_root_buffer,
}
use nftlox.StateRoot.Rollback.{Restores, rollback_to-Extends, here, queued}
use nftlox.Queries.Assets.{state_row}
use nftlox.Payment.Transfers.{find_unique_transfer_index, candidates, the_only, has_index}
use nftlox.Payment.Matching.{UniqueMatch, find_unique_transfer_index-UniqueMatch}
use nftlox.Prelude.{refl, [], ◌==◌, ◌&&◌, eqb, any_where}
use nftlox.Tests.Store.{transfers, listed_row, reserved_row}

split_exact_example :
    SplitsExactly 10005 500
      (some "carol")
      "alice"
      "node1"
      (calculate_payment_split_from_units 10005 500 (some "carol") "alice" "node1")
split_exact_example =
    split_exact 10005 500 (some "carol") "alice" "node1" (omega arith) (omega arith) (omega arith)
      (omega arith)

abbrev minted : BufferedMutation
minted = Buffer.insert (state_row "a" listed_row) 5

abbrev moved : BufferedMutation
moved = Buffer.update (state_row "a" listed_row) (state_row "a" reserved_row) 6

rollback_to-Extends_example : Restores (queue minted create_state_root_buffer) (
    rollback_to
      (checkpoint (queue minted create_state_root_buffer))
      (queue moved (queue minted create_state_root_buffer)))
rollback_to-Extends_example = rollback_to-Extends (queued moved here)

-- Of three legs, the seller's is found.
find_unique_transfer_index-UniqueMatch_example :
    UniqueMatch transfers [] [] (λ t. t.to == "alice" && eqb t.amount 9400) 0
unfolding find_unique_transfer_index candidates the_only has_index any_where
find_unique_transfer_index-UniqueMatch_example =
    find_unique_transfer_index-UniqueMatch transfers [] []
      (λ t. t.to == "alice" && eqb t.amount 9400) 0 refl
