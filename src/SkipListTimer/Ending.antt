-- ===== src/SkipListTimer/Ending.antt =====
-- The destructor of the skip list, on a list that stands for timers.
use cpp_project.Base.{
  ℕ, ◌≡◌, refl, ◌∙◌, ◌≢◌, ◌<◌, List, [], ◌∷◌, none, some, Option, ok, arith, update, update_self,
  update_ne, All, >>=_ok, or_fault_ok, or_fault,
}
use cpp_project.SkipListTimer.Node.{
  Ptr, Heap, Node, garbage, get_next, delete, deref, skiplist_maxlevel,
}
use cpp_project.SkipListTimer.SkipList.{SkipList, destroy}
use cpp_project.SkipListTimer.Chain.{Entry, pick, Chain, Fresh}
use cpp_project.SkipListTimer.Stored.{Stored}
use cpp_project.SkipListTimer.Remove.{delete_levels_total}
use cpp_project.SkipListTimer.Represents.{Represents}

-- The header has a level at each height of a chain from it.
header_set :
    (h : Heap) (p : Ptr) (n : Node) (i : ℕ) (q : Option Ptr)
    → h p ≡ some n
    → i < skiplist_maxlevel
    → get_next h p i ≡ ok q
    → n.slot i ≢ garbage
unfolding get_next deref
header_set h p n i q live lt run bad = ground arith

starts :
    (h : Heap) (i : ℕ) (p : Ptr) (qs : List Ptr)
    → Chain h i p qs
    → (q : Option Ptr) × (get_next h p i ≡ ok q)
starts h i p [] c = (none, c)
starts h i p (q ∷ qs) c = (some q, c.0)

next_live :
    (h : Heap) (p : Ptr) (i : ℕ) (q : Option Ptr)
    → get_next h p i ≡ ok q
    → (n : Node) × (h p ≡ some n)
unfolding get_next deref
next_live h p i q run =
    let (n, e, _) = >>=_ok (or_fault (h p)) _ q run in (n, or_fault_ok (h p) n e)

-- The nodes of the entries, which are not the header, stay as they are.
stay :
    (h : Heap) (p : Ptr) (xs : List Entry)
    → Fresh p xs
    → All (Stored h) xs
    → All (λ e. (n : Node) × (update h p none e.ptr ≡ some n) × (n.score ≡ e.score)) xs
stay h p [] f a = tt
stay h p (e ∷ xs) f a =
    ((a.0.node, update_ne h p none e.ptr f.0 ∙ a.0.held, a.0.score), stay h p xs f.1 a.1)

-- If a skip list stands for a list of timers, `~SkipList` returns and frees the header, and the node of every
-- timer, with its score, is still allocated afterwards.
destroy_leaks :
    (s : SkipList) (xs : List Entry)
    → Represents s xs
    → (h : Heap) × (destroy s ≡ ok h)
      × (h s.header ≡ none)
      × All (λ e. (n : Node) × (h e.ptr ≡ some n) × (n.score ≡ e.score)) xs
unfolding destroy delete deref
destroy_leaks s xs rep =
    let head = λ (i : ℕ) (lt : i < skiplist_maxlevel).
      starts s.heap i s.header (pick i xs) (rep.chains i lt) in
    let (q, first) = head 0 (omega arith) in
    let (n, live) = next_live s.heap s.header 0 q first in
    let (m, run) =
      delete_levels_total 32 0 n (n.slot 0) refl
        (λ j _ lt. let (r, e) = head j lt in header_set s.heap s.header n j r live lt e) in
    (
      update s.heap s.header none,
      rw (live, run) refl,
      update_self s.heap s.header none,
      stay s.heap s.header xs rep.apart rep.stored,
    )
