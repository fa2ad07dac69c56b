-- ===== src/ChatQueue/Tests.antt =====
-- Runs of the chat queue's store on small inputs, and its theorems at them.
use pican.Base.{
  ◌≤◌, ◌≡◌, refl, ◌≢◌, String, true, false, List, [], ◌∷◌, ◌++◌, none, some, arith, ok, err, ◌⊎◌,
}
use pican.ChatQueue.Table.{Item, Db}
use pican.ChatQueue.Next.{next_of}
use pican.ChatQueue.Invariant.{IsOrdered, add-IsOrdered}
use pican.ChatQueue.Fifo.{queue, add-queue, pop_head-queue}
use pican.ChatQueue.History.{Call, removes, pops, step, claims, run_claims, Distinct}
use pican.ChatQueue.History.Claims.{run_claims-Distinct}
use pican.ChatQueue.Sessions.{clear-add}
use pican.ChatQueue.{
  Error, commit, Faults, add, remove, pop_head, list, sessions_with_items, clear, set_paused,
}

abbrev sound : Faults
sound _ = false

-- The commit of a transaction fails.
abbrev bad_commit : Faults
bad_commit commit = true
bad_commit _ = false

abbrev empty_db : Db
empty_db = record { items = []; states = [] }

empty_db-IsOrdered : IsOrdered empty_db
empty_db-IsOrdered s = omega arith

store : Unit {0}
unfolding add remove pop_head set_paused list sessions_with_items clear
store = tt

abbrev one_item : Db
one_item = (add sound 10 empty_db "s1" "hello" "").1

abbrev two_items : Db
two_items = (add sound 11 one_item "s1" "again" "Again").1

abbrev first : Item
first = record {
  session_id = "s1";
  position = 1;
  message = "hello";
  display_text = "hello";
  created_at = 10;
}

abbrev second : Item
second = record {
  session_id = "s1";
  position = 2;
  message = "again";
  display_text = "Again";
  created_at = 11;
}

one_item-IsOrdered : IsOrdered one_item
one_item-IsOrdered = add-IsOrdered sound 10 empty_db "s1" "hello" "" empty_db-IsOrdered

two_items-IsOrdered : IsOrdered two_items
two_items-IsOrdered = add-IsOrdered sound 11 one_item "s1" "again" "Again" one_item-IsOrdered

two_items_rows : two_items.items ≡ first ∷ second ∷ []
unfolding store
two_items_rows = refl

pop_first : (pop_head sound two_items "s1").0 ≡ ok (some first)
unfolding store
pop_first = refl

remove_missing : (remove sound two_items "s1" 7).0 ≡ ok false
unfolding store
remove_missing = refl

listed : list sound two_items "s1" ≡ ok (record { items = first ∷ second ∷ []; paused = false })
unfolding store
listed = refl

awake : sessions_with_items sound two_items ≡ ok ("s1" ∷ [])
unfolding store
awake = refl

-- The first two adds, then the drainer and "send now" race for the first item.
abbrev race : List Call
race = pops sound "s1" ∷ removes sound "s1" 1 ∷ removes bad_commit "s1" 2 ∷ pops sound "s1" ∷ []

run_claims-Distinct_example : Distinct (run_claims "s1" two_items race)
run_claims-Distinct_example = run_claims-Distinct "s1" two_items race two_items-IsOrdered

race_claims : run_claims "s1" two_items race ≡ 1 ∷ 2 ∷ []
unfolding store run_claims claims step
race_claims = refl

second_added : (add sound 11 one_item "s1" "again" "Again").0 ≡ ok second
unfolding store
second_added = refl

add-queue_example :
    (queue "s1" two_items ≡ queue "s1" one_item ++ second ∷ [])
    × ((t : String) → "s1" ≢ t → queue t two_items ≡ queue t one_item)
    × (next_of "s1" one_item.states ≤ 2)
    × (next_of "s1" two_items.states ≡ 3)
add-queue_example =
    add-queue sound 11 one_item "s1" "again" "Again" second one_item-IsOrdered second_added

add_rolled_back : (add bad_commit 12 two_items "s1" "more" "").0 ≡ err commit
unfolding store
add_rolled_back = refl

remove_first : (remove sound two_items "s1" 1).0 ≡ ok true
unfolding store
remove_first = refl

pop_head-queue_example :
    let (reply, db') = pop_head sound two_items "s1" in
    ((item : Item) × (reply ≡ ok (some item))
      × (queue "s1" two_items ≡ item ∷ queue "s1" db')
      × ((t : String) → "s1" ≢ t → queue t db' ≡ queue t two_items))
    ⊎ ((reply ≡ ok none) × (queue "s1" two_items ≡ []) × (db' ≡ two_items))
    ⊎ ((e : Error) × (reply ≡ err e) × (db' ≡ two_items))
pop_head-queue_example = pop_head-queue sound two_items "s1" two_items-IsOrdered

clear_ok : (clear sound two_items "s1").0 ≡ ok tt
unfolding store
clear_ok = refl

abbrev restarted : Item
restarted = record {
  session_id = "s1";
  position = 1;
  message = "new";
  display_text = "new";
  created_at = 20;
}

restarted_ok : (add sound 20 (clear sound two_items "s1").1 "s1" "new" "").0 ≡ ok restarted
unfolding store
restarted_ok = refl

clear-add_example : restarted.position ≡ 1
clear-add_example = clear-add sound sound 20 two_items "s1" "new" "" restarted clear_ok restarted_ok
