-- ===== src/Lib.antt =====
-- The core of Granary, a dynamic binary translation framework: the state that it keeps while it
-- translates basic blocks, and the routines that change that state.
--
-- A processor that runs translated code asks for the translation of an address. The address carries
-- the instrumentation policy in its top bits (Policy); it is looked up in the private cache of the
-- processor (CpuCodeCache) and then in the global one, a hash table (HashTable). A translation that
-- is missing is made and stored there; its memory comes from bump-pointer allocators
-- (BumpAllocator), one for each kind of memory.
--
-- Common holds Boolean tests, lists under native indices, functions changed at a place, and the bits
-- of machine words. Words of
-- 16, 32 and 64 bits are natural numbers below 2 ^ 16, 2 ^ 32 and 2 ^ 64, and the wrap-around is
-- written out wherever the code can reach it; addresses are numbers, and a null pointer is 0.
--
-- Probe is the linear probing that the two tables share: the loop of `insert` and `find` in
-- granary/hash_table.h and granary/cpu_code_cache.cc. Probe/Seek says where a key belongs, Slots
-- what makes the slots well placed, Insert what writing at the end of a walk does, Fuel that a walk
-- ends, and Transfer what the loop of `grow` does. The loop has no bound of its own; it is given as
-- many rounds as there are slots, and Probe/Fuel shows that they are enough when one slot is free.
--
-- HashTable is `hash_table` and `hash_set` (granary/hash_table.h, granary/hash_table.cc) with
-- `insert`, `grow`, `find`, `load`, `store` and `for_each_entry`. The hash function is a parameter,
-- any function of the key. Its keys and values are numbers, with 0 for the default key and `V()`.
-- HashTable/Valid has the invariant, Store and Laws what a `store` does, Entries the iteration and
-- Sets the sets. CpuCodeCache is `cpu_private_code_cache` (granary/cpu_code_cache.h,
-- granary/cpu_code_cache.cc), with its 64-bit hash `fmix` written out.
--
-- Policy is `instrumentation_policy` and `mangled_address` (granary/policy.h, granary/policy.cc):
-- the 16-bit word of a policy, its properties, and the addresses that carry one. Policy/Ids is the
-- registry of the policy types, with `init_policy` and the conversion of a type to a policy.
--
-- BumpAllocator is `bump_pointer_allocator` (granary/bump_allocator.h). A slab is a record with its
-- address; the linked lists of slabs are lists. What the surroundings answer, the memory of a new
-- slab and whether the lock of the global free list is free, is an input of each operation. The
-- loop of `allocate_bare` gets three rounds, as in the test builds, and they are enough.
--
-- CodeMap is what the users of a hash table see of it, an interface; CodeMap/Table fills it with
-- HashTable. CodeCache is `code_cache::find` (granary/code_cache.cc) over any such map, with the
-- detach points of granary/detach.cc. The translator, the generator of exit stubs and the tests of an
-- address are parameters; the calls that `find` makes of other parts are a log of events. CodeCache/Find
-- has the lemmas of its steps, CodeCache/Resolve says where a branch goes that needs no translation,
-- and CodeCache/Answer what the whole of it answers.
--
-- Registers has the tables of register identifiers and Registers/Manager `register_manager`
-- (granary/register.h, granary/register.cc), which clients use to find registers that they may
-- overwrite in front of an instruction. An instruction is what the decoder says of it. Registers/Bits,
-- Effect and Visit follow one bit of the live registers through each call, Invariant, Reach and Calls
-- show what holds after any sequence of calls, Zombie is about the registers lent out, Codec about
-- the encoding, and Liveness about whole blocks, where the processor is a parameter: registers and
-- any other state, such as memory and flags, and what it does for an instruction. Which registers an
-- instruction reads and replaces is said there and in Effect and Visit without the tables of the code.
--
-- BlockInfo is the table of basic blocks of one slab of translated code (granary/basic_block_info.cc),
-- with the binary search for the block of an address; its loop gets one round more than there are
-- fragments. Storing and removing give no table where one of their assertions fails. BlockInfo/Search is about the search, BlockInfo/Blocks about traces.
--
-- ExecMemory is the executable memory of granary/allocator.cc: an area of 100 MB from which several
-- processors take memory at the same time, each by an atomic update of a bound and a check behind it.
-- ExecMemory/Steps has their interleavings, Invariant what stays true of all requests, Kept that each
-- step keeps it, Safety what follows for the memory that they get, and Whole that a call is two
-- steps. A processor whose check fails stops there.
--
-- Heap is the heap of the same file, `global_allocate` and `global_free`: size classes of powers of
-- two (Heap/Size), each with a free list that is linked through the free objects themselves, in a
-- memory of words that the owners of objects write to. Heap/Steps says what the owners do, Invariant
-- what stays true, Allocate and Free that each call keeps it, and Safety what the owners may rely on.
-- The lock of a free list makes a call one step; a new object is cut off without it, by one atomic
-- update. A request that faults has moved `HEAP_INDEX` on as well; runs where that index wraps around
-- at 2 ^ 32 are left out. SpinLock is the lock (granary/spin_lock.h), an atomic access of a processor
-- at a time, in one total order: SpinLock/Steps has the steps, Exclusion is about who is inside, and
-- Entry about who waits.
--
-- LinkedList is `list` (granary/list.h), doubly linked lists on an explicit memory of items. Links says
-- what a well-linked list is, Splice and Around are about an item between two others, Items, Insert
-- and Remove about each operation. LinkedList/Spec gives the same operations on a list of values, and
-- Values and Refine show that the links implement them; Clear is about the memory that `clear` gives
-- back. The loops of
-- `clear` get at least as many rounds as there are items.
--
-- InterruptDelay has the delay regions of granary/basic_block.cc, sequences of instructions that an
-- interrupt must not split: two bits for each byte of a block (InterruptDelay/Packed), set up from the
-- instructions (Fill for one of them, Region and Layout for a whole block), and read when an interrupt
-- comes (Range). The blocks there consist of whole regions and of single instructions between them; an
-- instruction inside of a region that begins and ends one itself is left out.
--
-- Not modelled: the translation of instructions itself and the emission of code, which stand on the
-- DynamoRIO encoder and decoder (deps/dr), the orderings of memory between processors
-- that are weaker than one total order, what bump-pointer allocators and the code cache hold, and
-- the clients.
pub mod Common
pub mod Probe
pub mod HashTable
pub mod CpuCodeCache
pub mod Policy
pub mod BumpAllocator
pub mod Registers
pub mod CodeMap
pub mod CodeCache
pub mod BlockInfo
pub mod ExecMemory
pub mod Heap
pub mod SpinLock
pub mod LinkedList
pub mod InterruptDelay
