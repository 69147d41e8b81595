-- ===== src/LinkedList.antt =====
-- Stdlib/mugOS/List.c: the circular doubly linked list. A store maps each address to the two fields of
-- the `lnode_t` there. The list head has the same two fields at the same offsets (`head` is `next`,
-- `tail` is `prev`), and the source casts between the two, so the head is a node of the store. The
-- arguments that the source asserts not to be NULL are addresses other than 0.
pub mod Links
pub mod Insert
pub mod Remove
pub mod Sequence
pub mod Taken
mod Tests
use mug_os.Base.{ℕ, Bool, ◌==◌, ◌&&◌, if◌then◌else◌}

pub record Store : Type 0 where
  pub next : ℕ → ℕ
  pub prev : ℕ → ℕ

abbrev pub null : ℕ
null = 0

abbrev pub update : (ℕ → ℕ) → ℕ → ℕ → ℕ → ℕ
update f a v x = if a == x then v else f x

-- `a->next = v` and `a->prev = v`.
abbrev pub set_next : Store → ℕ → ℕ → Store
set_next m a v = record m { next = update m.next a v }

abbrev pub set_prev : Store → ℕ → ℕ → Store
set_prev m a v = record m { prev = update m.prev a v }

-- `List_isEmpty`.
abbrev pub is_empty : Store → ℕ → Bool
is_empty m list = m.next list == list

-- `List_init`, and `List_empty`, which has the same body.
unfoldable pub init : Store → ℕ → Store
init m list = let m₁ = set_next m list list in set_prev m₁ list list

unfoldable pub empty : Store → ℕ → Store
empty m list = let m₁ = set_next m list list in set_prev m₁ list list

-- What both pushes do to an empty list.
unfoldable pub push_unique : Store → ℕ → ℕ → Store
push_unique m list node =
    let m₁ = set_next m list node in
    let m₂ = set_prev m₁ list node in let m₃ = set_next m₂ node list in set_prev m₃ node list

-- `List_pushFront`.
unfoldable pub push_front : Store → ℕ → ℕ → Store
unfolding push_unique
push_front m list node =
    if is_empty m list
    then push_unique m list node
    else (let m₁ = set_prev m (m.next list) node in
        let m₂ = set_next m₁ node (m₁.next list) in
        let m₃ = set_prev m₂ node list in set_next m₃ list node)

-- `List_pushBack`.
unfoldable pub push_back : Store → ℕ → ℕ → Store
unfolding push_unique
push_back m list node =
    if is_empty m list
    then push_unique m list node
    else (let m₁ = set_next m (m.prev list) node in
        let m₂ = set_prev m₁ node (m₁.prev list) in
        let m₃ = set_next m₂ node list in set_prev m₃ list node)

-- `popUniqueElement`.
unfoldable pub pop_unique_element : Store → ℕ → Store
pop_unique_element m list =
    let m₁ = set_next m (m.next list) null in
    let m₂ = set_prev m₁ (m₁.next list) null in
    let m₃ = set_next m₂ list list in set_prev m₃ list list

-- `popFrontInternal`.
unfoldable pub pop_front_internal : Store → ℕ → Store
pop_front_internal m list =
    let front_node = m.next list in
    let m₁ = set_next m list (m.next (m.next list)) in
    let m₂ = set_prev m₁ (m₁.next list) list in
    let m₃ = set_next m₂ front_node null in set_prev m₃ front_node null

-- `popBackInternal`.
unfoldable pub pop_back_internal : Store → ℕ → Store
pop_back_internal m list =
    let back_node = m.prev list in
    let m₁ = set_prev m list (m.prev back_node) in
    let m₂ = set_next m₁ (m₁.prev back_node) list in
    let m₃ = set_next m₂ back_node null in set_prev m₃ back_node null

-- `List_popFront`.
unfoldable pub pop_front : Store → ℕ → Store
unfolding pop_unique_element pop_front_internal
pop_front m list =
    if is_empty m list
    then m
    else if m.next list == m.prev list
    then pop_unique_element m list
    else pop_front_internal m list

-- `List_popBack`.
unfoldable pub pop_back : Store → ℕ → Store
unfolding pop_unique_element pop_back_internal
pop_back m list =
    if is_empty m list
    then m
    else if m.next list == m.prev list
    then pop_unique_element m list
    else pop_back_internal m list

-- `List_pop`.
unfoldable pub pop : Store → ℕ → ℕ → Store
unfolding pop_unique_element pop_front_internal pop_back_internal
pop m list node =
    if is_empty m list
    then m
    else if (node == m.next list) && (node == m.prev list)
    then pop_unique_element m list
    else if node == m.next list
    then pop_front_internal m list
    else if node == m.prev list
    then pop_back_internal m list
    else (let m₁ = set_prev m (m.next node) (m.prev node) in
        let m₂ = set_next m₁ (m₁.prev node) (m₁.next node) in
        let m₃ = set_next m₂ node null in set_prev m₃ node null)
