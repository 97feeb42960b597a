-- ===== src/SkipListTimer/Stored.antt =====
-- The node of an entry, and what leaves it as it is.
use cpp_project.Base.{ℕ, ◌≡◌, ◌∙◌, ◌≢◌, Option, some, ◌==◌, ok, arith, Bool-cases, inl, inr}
use cpp_project.SkipListTimer.Node.{Ptr, Heap, Node, garbage, get_score, with_next}
use cpp_project.SkipListTimer.Access.{put}
use cpp_project.SkipListTimer.Chain.{Entry}

-- The node of an entry: its score and handler, and no unset pointer in it.
pub record Stored (h : Heap) (e : Entry) : Type 0 where
  pub node : Node
  pub held : h e.ptr ≡ some node
  pub score : node.score ≡ e.score
  pub handle : node.handle ≡ e.handle
  pub set : (i : ℕ) → node.slot i ≢ garbage

pub Stored-score : (h : Heap) (e : Entry) → Stored h e → get_score h e.ptr ≡ ok e.score
unfolding get_score
Stored-score h e s = rw (s.held, s.score)

pub Stored-frame : (h g : Heap) (e : Entry) → g e.ptr ≡ h e.ptr → Stored h e → Stored g e
Stored-frame h g e q s = record {
  node = s.node;
  held = q ∙ s.held;
  score = s.score;
  handle = s.handle;
  set = s.set;
}

pub Stored-put :
    (h : Heap) (p : Ptr) (i : ℕ) (q : Option Ptr) (e : Entry) → Stored h e → Stored (put h p i q) e
unfolding put
Stored-put h p i q e s = elim (Bool-cases (e.ptr == p)) [
  | inl t ↦ record {
    node = with_next s.node i q;
    held = ground (arith, s.held);
    score = s.score;
    handle = s.handle;
    set = λ j. ground (arith, s.set j);
  }
  | inr t ↦ Stored-frame h (put h p i q) e (ground arith) s
]
