-- ===== src/Heap.antt =====
-- include/SkBase/Heap.Debug.hxx: the heap that guards, counts and lists its blocks.
pub mod Dump
pub mod Blocks
pub mod Counts
mod Tests
use mathlib.Core.Option
use sketch.Base.{
  ℕ, zero, suc, ◌+◌, ◌-◌, ◌*◌, ◌/◌, ◌%◌, ◌^◌, Option, none, some, Bool, true, false, ◌&&◌, ◌||◌,
  not, List, [], ◌∷◌, ◌++◌, ltb, leb, ◌==◌, if◌then◌else◌, replicate, length, map, update,
}
use Prim.Native.Nat.{bit_and}

-- `Header`, without the node of the list. A heap is known by its address.
pub record Header : Type 0 where
  pub heap : ℕ
  pub size : ℕ
  pub file : ℕ
  pub line : ℕ
  pub guard_pre : List ℕ

pub record Tail : Type 0 where
  pub size : ℕ
  pub guard_post : List ℕ

-- The counters of a `DebugHeap`, which only grow far below 2^63
pub record Stats : Type 0 where
  pub total_allocations : ℕ
  pub current_allocations : ℕ
  pub peak_allocations : ℕ
  pub total_bytes : ℕ
  pub current_bytes : ℕ
  pub peak_bytes : ℕ
  pub largest : ℕ
  pub smallest : ℕ

-- The heap at the address `this`: its blocks by the address of their header, with the bytes between
-- header and tail, and the headers that `m_list` holds, in its order.
pub record DebugHeap : Type 0 where
  pub this : ℕ
  pub header : ℕ → Header
  pub bytes : ℕ → List ℕ
  pub tail : ℕ → Tail
  pub list : List ℕ
  pub stats : Stats

abbrev pub guard_dwords : ℕ
guard_dwords = 2

abbrev pub guard_value : ℕ
guard_value = 0xfeeddaad

abbrev pub fill_value : ℕ
fill_value = 0xaa

-- `uint64_t(-1)`
abbrev pub no_block : ℕ
no_block = 2 ^ 64 - 1

unfoldable pub make : ℕ → (ℕ → Header) → (ℕ → List ℕ) → (ℕ → Tail) → DebugHeap
make this header bytes tail = record {
  this = this;
  header = header;
  bytes = bytes;
  tail = tail;
  list = [];
  stats = record {
    total_allocations = 0;
    current_allocations = 0;
    peak_allocations = 0;
    total_bytes = 0;
    current_bytes = 0;
    peak_bytes = 0;
    largest = 0;
    smallest = no_block;
  };
}

-- `_initialize`
unfoldable pub initialize : DebugHeap → ℕ → ℕ → ℕ → ℕ → DebugHeap
initialize d h size file line = record d {
  header = update d.header h (record {
    heap = d.this;
    size = size;
    file = file;
    line = line;
    guard_pre = replicate guard_dwords guard_value;
  });
  bytes = update d.bytes h (replicate size fill_value);
  tail = update d.tail h (record { size = size; guard_post = replicate guard_dwords guard_value });
}

-- The loops of `_check` over the guards
unfoldable pub guards_kept : List ℕ → Bool
guards_kept [] = true
guards_kept (g ∷ gs) = if not (g == guard_value) then false else guards_kept gs

-- `_check`, without the break into a debugger
unfoldable pub check : DebugHeap → ℕ → Bool
check d h =
    if not ((d.header h).heap == d.this)
    then false
    else if not ((d.header h).size == (d.tail h).size)
    then false
    else guards_kept (d.header h).guard_pre && guards_kept (d.tail h).guard_post

-- The counters of `_record`
unfoldable pub count_in : Stats → ℕ → Stats
count_in s size =
    let current = s.current_allocations + 1 in
    let bytes = s.current_bytes + size in
    record {
      current_allocations = current;
      peak_allocations = if ltb s.peak_allocations current then current else s.peak_allocations;
      total_allocations = s.total_allocations + 1;
      current_bytes = bytes;
      peak_bytes = if leb s.peak_bytes bytes then bytes else s.peak_bytes;
      total_bytes = s.total_bytes + size;
      largest = if ltb s.largest size then size else s.largest;
      smallest = if s.smallest == no_block || ltb size s.smallest then size else s.smallest;
    }

-- The counters of `_remove`; a block in the list was counted.
unfoldable pub count_out : Stats → ℕ → Stats
count_out s size = record s {
  current_allocations = s.current_allocations - 1;
  current_bytes = s.current_bytes - size;
}

-- `m_list.erase(h)`
unfoldable pub unlist : ℕ → List ℕ → List ℕ
unlist h [] = []
unlist h (x ∷ xs) = if x == h then xs else x ∷ unlist h xs

-- `allocate`, where the heap below answers with the address of a block, or with `none`. The result
-- is the header's address, which stands for that of the data behind it.
unfoldable pub allocate : DebugHeap → Option ℕ → ℕ → ℕ → ℕ → DebugHeap × Option ℕ
allocate d none size file line = (d, none)
allocate d (some h) size file line =
    let d' = initialize d h size file line in
    (record d' { list = d'.list ++ h ∷ []; stats = count_in d'.stats (d'.header h).size }, some h)

-- `free`: the heap afterwards, and what `_check` said. The block goes in either case.
unfoldable pub free : DebugHeap → ℕ → DebugHeap × Bool
free d h =
    let header' = update d.header h (record (d.header h) { heap = 0 }) in
    (
      record d {
        header = header';
        list = unlist h d.list;
        stats = count_out d.stats (header' h).size;
      },
      check d h,
    )

-- `sHexDigits`
unfoldable pub hex_digit : ℕ → ℕ
hex_digit n = if ltb n 10 then b'0' + n else b'A' + n - 10

-- `_bytesToHexDump` from the byte p on, with `room` characters left; `first` is `p == data`.
unfoldable pub hex_dump : Bool → List ℕ → ℕ → List ℕ
hex_dump first [] room = []
hex_dump first (p ∷ ps) room =
    let room' = if first then room else room - 1 in
    let rest = hex_dump false ps (room' - 1 - 1) in
    let lo = if room' - 1 == 0 then [] else hex_digit (p % 16) ∷ rest in
    let hi = hex_digit (p / 16) ∷ lo in
    if room == 0 then [] else if first then hi else b' ' ∷ (if room' == 0 then [] else hi)

unfoldable pub bytes_to_hex_dump : List ℕ → ℕ → List ℕ
bytes_to_hex_dump data_bytes buffer_size = hex_dump true data_bytes (buffer_size - 1)

-- `_printable`
unfoldable pub printable : ℕ → Bool
printable c = leb 33 c && leb c 126

-- `_bytesToTextDump`, with `room` characters left
unfoldable pub text_dump : List ℕ → ℕ → List ℕ
text_dump [] room = []
text_dump (p ∷ ps) room =
    let rest = text_dump ps (room - 1) in
    if room == 0 then [] else (if printable p then p else b'.') ∷ rest

unfoldable pub bytes_to_text_dump : List ℕ → ℕ → List ℕ
bytes_to_text_dump data_bytes buffer_size = text_dump data_bytes (buffer_size - 1)

-- The lines that `dump` writes. A block's line has its text and its bytes, or neither.
pub data Line : Type 0 where
  leaked : ℕ → Line
  statistics : Line
  blocks : Line
  numbers : Stats → Line
  block : ℕ → ℕ → ℕ → Line
  block_memory : ℕ → ℕ → ℕ → List ℕ → List ℕ → Line

abbrev pub bytes_to_dump : ℕ
bytes_to_dump = 64

-- `flags & flag`, as a condition
abbrev pub flagged : ℕ → ℕ → Bool
flagged flags flag = not (bit_and flags flag == 0)

-- `_dump`
unfoldable pub dump_block : DebugHeap → ℕ → ℕ → Line
dump_block d flags h =
    let header = d.header h in
    if flagged flags 3
    then block_memory header.size header.file header.line
        (bytes_to_text_dump (d.bytes h) (bytes_to_dump + 1))
        (bytes_to_hex_dump (d.bytes h) (bytes_to_dump * 3 + 1))
    else block header.size header.file header.line

-- The three parts of `dump`, under its lock
unfoldable pub dump_title : DebugHeap → ℕ → List Line
dump_title d flags =
    let n = length d.list in
    if flagged flags 1
    then (if n == 0 then [] else leaked n ∷ [])
    else if flagged flags 4
    then statistics ∷ []
    else if flagged flags 2
    then blocks ∷ []
    else []

unfoldable pub dump_stats : DebugHeap → ℕ → List Line
dump_stats d flags = if flagged flags 4 then numbers d.stats ∷ [] else []

unfoldable pub dump_blocks : DebugHeap → ℕ → List Line
dump_blocks d flags = if flagged flags 2 then map (dump_block d flags) d.list else []

unfoldable pub dump : DebugHeap → ℕ → List Line
dump d flags = dump_title d flags ++ (dump_stats d flags ++ dump_blocks d flags)
