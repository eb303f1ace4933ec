-- ===== src/LuaService/Allocator.antt =====
-- services/lua_service.cpp, `lalloc`: what is counted is the memory of the live blocks.
use new_happy_server.Base.{
  ℕ, zero, suc, ◌+◌, ◌-◌, ◌%◌, ◌^◌, ◌≤◌, ◌<◌, ◌≡◌, refl, sym, subst, ◌∙◌, ◌⊎◌, inl, inr, Bool, true,
  false, not, ◌&&◌, ◌||◌, List, [], ◌∷◌, arith, Bool-cases, ltb, ltb→le, ltb→lt, ◌==◌,
  if◌then◌else◌,
}
use new_happy_server.Base.Words.{sub_size}
use new_happy_server.LuaService.{
  Memory, new_memory, set_limit, Answer, refuses, frees, reallocs, lalloc,
}

-- What Lua asks for: a new block, or another size for the block with a number; size 0 frees it.
pub data Request : Type 0 where
  allocates : ℕ → Request
  resizes : ℕ → ℕ → Request

abbrev pub total : List ℕ → ℕ
total [] = 0
total (b ∷ bs) = b + total bs

abbrev pub size_at : ℕ → List ℕ → ℕ
size_at i [] = 0
size_at zero (b ∷ bs) = b
size_at (suc i) (b ∷ bs) = size_at i bs

abbrev pub resize_at : ℕ → ℕ → List ℕ → List ℕ
resize_at i n [] = []
resize_at zero n (b ∷ bs) = n ∷ bs
resize_at (suc i) n (b ∷ bs) = b ∷ resize_at i n bs

abbrev pub is_block : ℕ → List ℕ → Bool
is_block i [] = false
is_block zero (b ∷ bs) = true
is_block (suc i) (b ∷ bs) = is_block i bs

abbrev pub after_answer : Answer → List ℕ → List ℕ → List ℕ
after_answer refuses before changed = before
after_answer frees before changed = changed
after_answer reallocs before changed = changed

-- A request where `realloc` always has the memory. The sizes of the blocks stand in a list; a block
-- that is freed has size 0, and a number without a block asks for nothing.
abbrev pub serve : Request → Memory × List ℕ → Memory × List ℕ
serve (allocates n) (l, blocks) =
    let (answer, l') = lalloc false 0 n l in (l', after_answer answer blocks (n ∷ blocks))
serve (resizes i n) (l, blocks) =
    let (answer, l') = lalloc true (size_at i blocks) n l in
    let changed : Memory × List ℕ = (l', after_answer answer blocks (resize_at i n blocks)) in
    if is_block i blocks then changed else (l, blocks)

abbrev pub serve_all : List Request → Memory × List ℕ → Memory × List ℕ
serve_all [] state = state
serve_all (r ∷ rs) state = serve_all rs (serve r state)

abbrev pub asked : List Request → ℕ
asked [] = 0
asked (allocates n ∷ rs) = n + asked rs
asked (resizes i n ∷ rs) = n + asked rs

-- The memory is what the blocks take, and at most `cap` if a limit is set.
abbrev IsCounted : ℕ → ℕ → Memory × List ℕ → Type 0
IsCounted limit cap (l, blocks) =
    (l.mem ≡ total blocks) × (l.mem_limit ≡ limit) × ((limit ≡ 0) ⊎ (l.mem ≤ cap))

total-resize_at :
    (i n : ℕ) (blocks : List ℕ)
    → is_block i blocks ≡ true
    → (size_at i blocks ≤ total blocks)
      × (total (resize_at i n blocks) + size_at i blocks ≡ total blocks + n)
total-resize_at i n [] h = absurd (ground (arith, h))
total-resize_at zero n (b ∷ bs) h = (omega arith, omega arith)
total-resize_at (suc i) n (b ∷ bs) h =
    let rest = total-resize_at i n bs h in (omega (arith, rest.0), omega (arith, rest.1))

over_limit : Bool → ℕ → ℕ → ℕ → ℕ → Bool
over_limit has_block osize nsize limit mem =
    (not (limit == 0) && ltb limit mem) && (not has_block || ltb osize nsize)

-- A request that is not refused keeps the limit.
keeps_limit :
    (has_block : Bool) (osize nsize limit cap before after : ℕ)
    → limit ≤ cap
    → after ≡ before + nsize - osize
    → (limit ≡ 0) ⊎ (before ≤ cap)
    → over_limit has_block osize nsize limit after ≡ false
    → (limit ≡ 0) ⊎ (after ≤ cap)
unfolding over_limit
keeps_limit has_block osize nsize limit cap before after up e (inl none_set) h = inl none_set
keeps_limit has_block osize nsize limit cap before after up e (inr held) h =
    elim (Bool-cases (ltb limit after)) [
      | inr fits ↦ inr (omega (arith, up, ltb→le limit after fits))
      | inl over ↦ elim (Bool-cases (ltb osize nsize)) [
        | inr shrinks ↦ inr (omega (arith, e, held, ltb→le osize nsize shrinks))
        | inl grows ↦ inl (ground (arith, over, grows, h))
      ]
    ]

-- The allocator on a block of `osize`, none being a block of size 0.
lalloc_cases :
    (has_block : Bool) (osize nsize cap : ℕ) (l : Memory)
    → l.mem_limit ≤ cap
    → (has_block ≡ true) ⊎ (osize ≡ 0)
    → osize ≤ l.mem
    → l.mem + nsize < 2 ^ 64
    → (l.mem_limit ≡ 0) ⊎ (l.mem ≤ cap)
    → let (answer, l') = lalloc has_block osize nsize l in
      ((answer ≡ refuses) × (l' ≡ l))
      ⊎ (((answer ≡ frees) ⊎ (answer ≡ reallocs))
          × (l'.mem + osize ≡ l.mem + nsize)
          × (l'.mem_limit ≡ l.mem_limit)
          × ((l.mem_limit ≡ 0) ⊎ (l'.mem ≤ cap)))
unfolding lalloc over_limit
lalloc_cases has_block osize nsize cap l up kind below small held =
    let after = l.mem + nsize - osize in
    let more : (l.mem + nsize) % 2 ^ 64 ≡ l.mem + nsize = omega (arith, small) in
    let sub : sub_size (l.mem + nsize) osize ≡ after = omega (arith, small, below) in
    let mem : (if has_block then sub_size (l.mem + nsize) osize else l.mem + nsize) ≡ after =
      elim (Bool-cases has_block) [
        | inl has ↦ rw has sub
        | inr new ↦ rw new (new_block new kind)
      ] in
    elim (Bool-cases (over_limit has_block osize nsize l.mem_limit after)) [
      | inl over ↦ rw (more, mem, over) (inl (refl, refl))
      | inr goes ↦
          let bound =
            keeps_limit has_block osize nsize l.mem_limit cap l.mem after up refl held goes in
          elim (Bool-cases (nsize == 0)) [
            | inl nothing ↦
                rw (more, mem, goes, nothing) (inr (inl refl, omega (arith, below), refl, bound))
            | inr some_size ↦
                rw (more, mem, goes, some_size) (inr (inr refl, omega (arith, below), refl, bound))
          ]
    ]
  where
    new_block :
        has_block ≡ false → (has_block ≡ true) ⊎ (osize ≡ 0) → l.mem + nsize ≡ l.mem + nsize - osize
    new_block new (inl has) = absurd (ground (arith, new, has))
    new_block new (inr zero_size) = omega (arith, zero_size)

abbrev asked_by : Request → ℕ
asked_by (allocates n) = n
asked_by (resizes i n) = n

abbrev Kept : ℕ → ℕ → ℕ → ℕ → Memory × List ℕ → Type 0
Kept limit cap before n after = IsCounted limit cap after × (after.0.mem ≤ before + n)

-- What a request leaves, from what the allocator answers.
answer-Kept :
    (limit cap osize n : ℕ) (l l' : Memory) (answer : Answer) (before changed : List ℕ)
    → IsCounted limit cap (l, before)
    → total changed + osize ≡ total before + n
    → (((answer ≡ refuses) × (l' ≡ l))
        ⊎ (((answer ≡ frees) ⊎ (answer ≡ reallocs))
            × (l'.mem + osize ≡ l.mem + n)
            × (l'.mem_limit ≡ l.mem_limit)
            × ((l.mem_limit ≡ 0) ⊎ (l'.mem ≤ cap))))
    → Kept limit cap l.mem n (l', after_answer answer before changed)
answer-Kept limit cap osize n l l' answer before changed counted sizes (inl (refused, same)) =
    rw (refused, same) (counted, omega arith)
answer-Kept limit cap osize n l l' answer before changed counted sizes
      (inr (done, mem, set, held)) =
    let now : l'.mem ≡ total changed = omega (arith, mem, sizes, counted.0) in
    let bound = subst (λ m. (m ≡ 0) ⊎ (l'.mem ≤ cap)) counted.1 held in
    let less : l'.mem ≤ l.mem + n = omega (arith, mem) in
    elim done [
      | inl freed ↦ rw freed ((now, set ∙ counted.1, bound), less)
      | inr given ↦ rw given ((now, set ∙ counted.1, bound), less)
    ]

serve-Kept :
    (limit cap : ℕ) (r : Request) (l : Memory) (blocks : List ℕ)
    → limit ≤ cap
    → IsCounted limit cap (l, blocks)
    → l.mem + asked_by r < 2 ^ 64
    → Kept limit cap l.mem (asked_by r) (serve r (l, blocks))
serve-Kept limit cap (allocates n) l blocks up counted small =
    let held = subst (λ m. (m ≡ 0) ⊎ (l.mem ≤ cap)) (sym counted.1) counted.2 in
    let cases =
      lalloc_cases false 0 n cap l (omega (arith, up, counted.1)) (inr refl) (omega arith) small
        held in
    answer-Kept limit cap 0 n l _ _ blocks (n ∷ blocks) counted (omega arith) cases
serve-Kept limit cap (resizes i n) l blocks up counted small =
    elim (Bool-cases (is_block i blocks)) [
      | inr none_there ↦ rw none_there (counted, omega arith)
      | inl there ↦
          let held = subst (λ m. (m ≡ 0) ⊎ (l.mem ≤ cap)) (sym counted.1) counted.2 in
          let (inside, sizes) = total-resize_at i n blocks there in
          let cases =
            lalloc_cases true (size_at i blocks) n cap l (omega (arith, up, counted.1)) (inl refl)
              (omega (arith, inside, counted.0)) small held in
          rw there (
            answer-Kept limit cap (size_at i blocks) n l _ _ blocks (resize_at i n blocks) counted
              sizes cases)
    ]

abbrev pub larger : ℕ → ℕ → ℕ
larger a b = if ltb a b then b else a

larger_bounds : (a b : ℕ) → (a ≤ larger a b) × (b ≤ larger a b)
larger_bounds a b = elim (Bool-cases (ltb a b)) [
  | inl less ↦ rw less (omega (arith, ltb→lt a b less), omega arith)
  | inr more ↦ rw more (omega arith, ltb→le a b more)
]

serve_all-Kept :
    (limit cap : ℕ) (requests : List Request) (l : Memory) (blocks : List ℕ)
    → limit ≤ cap
    → IsCounted limit cap (l, blocks)
    → l.mem + asked requests < 2 ^ 64
    → Kept limit cap l.mem (asked requests) (serve_all requests (l, blocks))
serve_all-Kept limit cap [] l blocks up counted small = (counted, omega arith)
serve_all-Kept limit cap (allocates n ∷ rs) l blocks up counted small =
    let (now, less) =
      serve-Kept limit cap (allocates n) l blocks up counted (omega (arith, small)) in
    let (after, rest) = serve_all-Kept limit cap rs _ _ up now (omega (arith, small, less)) in
    (after, omega (arith, less, rest))
serve_all-Kept limit cap (resizes i n ∷ rs) l blocks up counted small =
    let (now, less) =
      serve-Kept limit cap (resizes i n) l blocks up counted (omega (arith, small)) in
    let (after, rest) = serve_all-Kept limit cap rs _ _ up now (omega (arith, small, less)) in
    (after, omega (arith, less, rest))

-- Let a new service answer requests, have its limit set, and answer more requests, all of which ask for
-- fewer than 2 ^ 64 bytes together, where `realloc` never fails. Before the limit is set and at the
-- end the service's memory is the sum of its blocks' sizes; at the end it is at most the limit, or
-- what it was when the limit was set if that is more, unless the limit is 0.
pub memory-IsCounted :
    (limit : ℕ) (before after : List Request)
    → asked before + asked after < 2 ^ 64
    → let (l, blocks) = serve_all before (new_memory, []) in
      let (l', blocks') = serve_all after (set_limit limit l, blocks) in
      (l.mem ≡ total blocks)
      × (l'.mem ≡ total blocks')
      × ((limit ≡ 0) ⊎ (l'.mem ≤ larger limit l.mem))
unfolding set_limit
memory-IsCounted limit before after small =
    let (l, blocks) = serve_all before (new_memory, []) in
    let (counted, less) =
      serve_all-Kept 0 0 before new_memory [] (omega arith) (refl, refl, inl refl)
        (omega (arith, small)) in
    let cap = larger limit l.mem in
    let (fits, holds) = larger_bounds limit l.mem in
    let (counted', _) =
      serve_all-Kept limit cap after (set_limit limit l) blocks fits (counted.0, refl, inr holds)
        (omega (arith, small, less)) in
    (counted.0, counted'.0, counted'.2)
