-- ===== src/Tests/Orders.antt =====
-- Moves in order lists, the counts of reactions, and the draws of ids.
use scherzo.Prelude.{
  ◌≡◌, refl, true, some, [], ◌∷◌, arith, elem, remove_first, position, remove_at, bytes_eq,
}
use scherzo.Chat.Types.{after, Reaction}
use scherzo.Chat.Ordering.{update_order}
use scherzo.Chat.Ordering.Moves.{move_to, place_beside, update_order-place_beside}
use scherzo.Chat.Messages.{react, step_reaction, is_emote}
use scherzo.Chat.Messages.Reactions.{Reacted, react_lem}
use scherzo.Tests.Sample.{wave}

update_order-place_beside_example :
    update_order 3 (move_to after 3 1) (3 ∷ 2 ∷ 1 ∷ 5 ∷ []) ≡ some (2 ∷ 1 ∷ 3 ∷ 5 ∷ [])
unfolding elem place_beside remove_first position remove_at
update_order-place_beside_example =
    update_order-place_beside after 3 1 (3 ∷ 2 ∷ 1 ∷ 5 ∷ []) (omega arith) (omega arith) refl

abbrev one_wave : Reaction
one_wave = record { count = 1; emote = some wave }

abbrev two_waves : Reaction
two_waves = record { count = 2; emote = some wave }

react_lem_example : Reacted wave true (one_wave ∷ []) (some two_waves) (two_waves ∷ [])
unfolding react step_reaction bytes_eq is_emote
react_lem_example = react_lem [] wave true (one_wave ∷ [])
