-- ===== src/IntrusiveList.antt =====
-- include/SkBase/IntrusiveList.hxx: the list whose links stand inside its elements.
pub mod Chain
pub mod Refine
mod Tests
use sketch.Base.{
  ℕ, zero, suc, ◌+◌, ◌-◌, Option, none, some, Bool, true, false, ◌==◌, if◌then◌else◌, update,
}

-- The links of all nodes, by address, and the list's own part. An element is known by the address
-- of its node, `m_root` stands at `root`, and 0 is the null pointer.
pub record Links : Type 0 where
  pub next : ℕ → ℕ
  pub prev : ℕ → ℕ
  pub root : ℕ
  pub size : ℕ

-- `IntrusiveList()`, given the memory that its root is built in
pub make : (ℕ → ℕ) → (ℕ → ℕ) → ℕ → Links
make next prev root = record {
  next = update next root root;
  prev = update prev root root;
  root = root;
  size = 0;
}

abbrev pub empty : Links → Bool
empty l = l.size == 0

-- `_add`: its four writes in their order
pub add : Links → ℕ → ℕ → ℕ → Links
add l node before behind =
    let next' = update l.next node behind in
    let prev' = update l.prev node before in
    record l { prev = update prev' behind node; next = update next' before node; size = l.size + 1 }

-- `_remove`: the neighbours are read before each write
pub remove : Links → ℕ → Links
remove l node =
    let prev' = update l.prev (l.next node) (l.prev node) in
    let next' = update l.next (prev' node) (l.next node) in
    record l { next = update next' node 0; prev = update prev' node 0; size = l.size - 1 }

pub push_front : Links → ℕ → Links
push_front l item = add l item l.root (l.next l.root)

pub push_back : Links → ℕ → Links
push_back l item = add l item (l.prev l.root) l.root

pub erase : Links → ℕ → Links
erase l item = remove l item

-- The list afterwards and the element, or the null pointer for `none`.
pub pull_front : Links → Links × Option ℕ
pull_front l = let it = l.next l.root in if it == l.root then (l, none) else (erase l it, some it)

pub pull_back : Links → Links × Option ℕ
pull_back l = let it = l.prev l.root in if it == l.root then (l, none) else (erase l it, some it)

-- The loop of `exists`, from `it` on. `none` means that the fuel ran out.
pub exists_from : Links → ℕ → ℕ → ℕ → Option Bool
exists_from l item zero it = none
exists_from l item (suc fuel) it =
    let rest = exists_from l item fuel (l.next it) in
    if it == l.root then some false else if it == item then some true else rest

pub exists : Links → ℕ → Option Bool
exists l item = exists_from l item (l.size + 1) (l.next l.root)
