-- ===== src/MarkStack/Runs.antt =====
-- A new stack, and one whose only table is full.
use motoko.Prelude.{◌≡◌, ◌≢◌, ◌⊎◌, ap, ◌∙◌, [], ◌∷◌, true, false, arith}
use motoko.MarkStack.{stack_empty, stack_table_capacity, MarkStack, new, push, pop, is_empty}
use motoko.MarkStack.Shape.{IsStack, contents}
use motoko.MarkStack.Push.{push-contents}
use motoko.MarkStack.Pop.{pop-contents, is_empty-contents, new-contents}

abbrev full : MarkStack
full = record new { top = stack_table_capacity }

full-IsStack : IsStack full
full-IsStack =
    let is = new-contents.0 in
    record {
      last = is.last;
      top = omega arith;
      previous = is.previous;
      next = is.next;
      no_next = is.no_next;
      entries = is.entries;
    }

push-contents_example : IsStack (push 5 full) × (contents (push 5 full) ≡ 5 ∷ contents full)
push-contents_example = push-contents full 5 full-IsStack

one-contents : IsStack (push 5 new) × (contents (push 5 new) ≡ 5 ∷ [])
one-contents =
    let r = push-contents new 5 new-contents.0 in (r.0, r.1 ∙ ap (λ l. 5 ∷ l) new-contents.1)

pop-contents_example :
    ((pop (push 5 new)).0 ≡ 5) × IsStack (pop (push 5 new)).1 × (contents (pop (push 5 new)).1 ≡ [])
pop-contents_example = pop-contents (push 5 new) 5 [] one-contents.0 one-contents.1

is_empty-contents_example :
    ((is_empty new ≡ true) × (contents new ≡ []) × (pop new ≡ (stack_empty, new)))
    ⊎ ((is_empty new ≡ false) × (contents new ≢ []))
is_empty-contents_example = is_empty-contents new new-contents.0
