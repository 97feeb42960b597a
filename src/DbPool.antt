-- ===== src/DbPool.antt =====
-- 线程池连接池/DBPool.cpp: the pool of connections, and what a thread does with it between taking the
-- lock and giving it back. A `DBConn*` is an address, or NULL.
pub mod System
pub mod Lists
pub mod Invariant
pub mod Moves
pub mod Safety
pub mod Awake
pub mod Tests
use cpp_project.Base.{
  ℕ, suc, ◌+◌, Bool, true, false, ◌||◌, Option, none, some, ◌==◌, if◌then◌else◌, leb, List, [], ◌∷◌,
  ◌++◌,
}

abbrev pub Ptr : Type 0
Ptr = ℕ

-- `DBPool`: the counts and the list of free connections.
pub record DbPool : Type 0 where
  pub cur_conn_cnt : ℕ
  pub max_conn_cnt : ℕ
  pub free_list : List (Option Ptr)

-- `DBPool::DBPool`
abbrev pub new_pool : ℕ → DbPool
new_pool max_conn = record { cur_conn_cnt = 1; max_conn_cnt = max_conn; free_list = [] }

-- What a new connection is and what its `Init` returns. A connection that fails is deleted.
pub record Attempt : Type 0 where
  pub address : Ptr
  pub result : ℕ

abbrev pub push_back : DbPool → Option Ptr → DbPool
push_back s c = record s { free_list = s.free_list ++ c ∷ [] }

-- `DBPool::Init`
unfoldable pub init : DbPool → Attempt → ℕ × DbPool
init s a = if a.result == 0 then (0, push_back s (some a.address)) else (a.result, s)

pub data Got : Type 0 where
  waits : Got
  fails : Got
  gets : DbPool → Option Ptr → Got

-- `front` and `pop_front`
abbrev pub take_front : DbPool → Got
take_front s = elim s.free_list [ [] ↦ waits | c ∷ cs ↦ gets (record s { free_list = cs }) c ]

-- The loop of `DBPool::GetDBConn` with the lock, until it waits or returns.
unfoldable pub get_section : DbPool → Attempt → Got
get_section s a = elim s.free_list [
  | [] ↦
      if leb s.max_conn_cnt s.cur_conn_cnt
      then waits
      else if a.result == 0
      then take_front (record (push_back s (some a.address)) { cur_conn_cnt = s.cur_conn_cnt + 1 })
      else fails
  | _ ∷ _ ↦ take_front s
]

abbrev pub same_conn : Option Ptr → Option Ptr → Bool
same_conn none none = true
same_conn (some a) (some b) = a == b
same_conn _ _ = false

-- The search of `DBPool::RelConn`.
unfoldable pub is_listed : Option Ptr → List (Option Ptr) → Bool
is_listed c [] = false
is_listed c (d ∷ ds) = same_conn d c || is_listed c ds

-- `DBPool::RelConn` with the lock.
unfoldable pub rel_section : DbPool → Option Ptr → DbPool
rel_section s c = if is_listed c s.free_list then s else push_back s c
