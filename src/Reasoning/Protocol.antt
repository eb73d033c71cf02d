-- ===== src/Reasoning/Protocol.antt =====
-- The block protocol, as a client reads it, and that every stream keeps it.
use ciallo_ms_365_open_ai_pr.Prelude.{
  ℕ, ◌+◌, ◌≡◌, refl, ◌∙◌, ap, inl, inr, Bool, true, false, Option, none, some, List, [], ◌∷◌, ◌++◌,
  eqb, eqb_iff, if◌then◌else◌, Bool-cases,
}
use ciallo_ms_365_open_ai_pr.Prelude.Text.{Text, is_empty}
use ciallo_ms_365_open_ai_pr.Reasoning.{
  ReasoningDelta, Kind, thinking_block, text_block, same_kind, BlockEvent, block_start, tool_start,
  thinking_delta, text_delta, signature_delta, input_delta, block_stop, ContentStream,
  content_stream, closing, close, start, reasoning_event, text_event, tool_event, add,
}

-- What a client has open: a block with its index and kind, and whether it was signed.
pub data Open : Type 0 where
  nothing : Open
  thinking : ℕ → Open
  signed : ℕ → Open
  text : ℕ → Open
  tool : ℕ → Open

-- The client's reading: the open block and the index of the next one; `none` is a violation.
abbrev pub Reader : Type 0
Reader = Open × ℕ

unfoldable pub guarded : Bool → Reader → Option Reader
guarded true r = some r
guarded false r = none

unfoldable pub read : BlockEvent → Reader → Option Reader
read (block_start i thinking_block) (nothing, n) = guarded (eqb i n) (thinking i, n + 1)
read (block_start i text_block) (nothing, n) = guarded (eqb i n) (text i, n + 1)
read (tool_start i id name) (nothing, n) = guarded (eqb i n) (tool i, n + 1)
read (thinking_delta i t) (thinking j, n) = guarded (eqb i j) (thinking j, n)
read (signature_delta i t) (thinking j, n) = guarded (eqb i j) (signed j, n)
read (text_delta i t) (text j, n) = guarded (eqb i j) (text j, n)
read (input_delta i t) (tool j, n) = guarded (eqb i j) (tool j, n)
read (block_stop i) (signed j, n) = guarded (eqb i j) (nothing, n)
read (block_stop i) (text j, n) = guarded (eqb i j) (nothing, n)
read (block_stop i) (tool j, n) = guarded (eqb i j) (nothing, n)
read _ _ = none

unfoldable pub read_all : List BlockEvent → Option Reader → Option Reader
read_all [] r = r
read_all (e ∷ events) none = none
read_all (e ∷ events) (some r) = read_all events (read e r)

read_all-append :
    (xs ys : List BlockEvent) (r : Option Reader)
    → read_all (xs ++ ys) r ≡ read_all ys (read_all xs r)
unfolding read_all
read_all-append [] ys r = refl
read_all-append (x ∷ xs) [] none = refl
read_all-append (x ∷ xs) (y ∷ ys) none = refl
read_all-append (x ∷ xs) ys (some r) = read_all-append xs ys (read x r)

-- What the stream takes to be open.
unfoldable pub view : Option Kind → ℕ → Open
view none i = nothing
view (some thinking_block) i = thinking i
view (some text_block) i = text i

abbrev pub reader : ContentStream → Option Reader
reader s = some (view s.kind s.index, s.next_index)

eqb_refl : (n : ℕ) → eqb n n ≡ true
eqb_refl n = (eqb_iff n n).1 refl

-- A guard on the open block's own index lets the reader on.
guarded_on : (n : ℕ) (r : Reader) → guarded (eqb n n) r ≡ some r
unfolding guarded
guarded_on n r = rw (eqb_refl n) refl

closing-read :
    (i n : ℕ) (k : Option Kind) → read_all (closing i k) (some (view k i, n)) ≡ some (nothing, n)
unfolding closing view read_all read
closing-read i n none = refl
closing-read i n (some thinking_block) =
    ap (λ (r : Option Reader). read_all (block_stop i ∷ []) r) (guarded_on i (signed i, n))
    ∙ guarded_on i (nothing, n)
closing-read i n (some text_block) = guarded_on i (nothing, n)

block_start-read :
    (n : ℕ) (k : Kind)
    → read_all (block_start n k ∷ []) (some (nothing, n)) ≡ some (view (some k) n, n + 1)
unfolding view read_all read guarded
block_start-read n thinking_block = rw (eqb_refl n) refl
block_start-read n text_block = rw (eqb_refl n) refl

tool-read :
    (n : ℕ) (id name input : Text)
    → read_all (tool_start n id name ∷ input_delta n input ∷ block_stop n ∷ []) (some (nothing, n))
      ≡ some (nothing, n + 1)
unfolding read_all read
tool-read n id name input =
    ap (λ (r : Option Reader). read_all (input_delta n input ∷ block_stop n ∷ []) r)
      (guarded_on n (tool n, n + 1))
    ∙ ap (λ (r : Option Reader). read_all (block_stop n ∷ []) r) (guarded_on n (tool n, n + 1))
    ∙ guarded_on n (nothing, n + 1)

-- After `start`, the reader has a block of that kind open, at the stream's index.
start-read :
    (k : Kind) (s : ContentStream) → read_all (start k s).0 (reader s) ≡ reader (start k s).1
unfolding start close
start-read k s = elim (Bool-cases (same_kind k s.kind)) [
  | inl same ↦ rw same (unfold read_all in refl)
  | inr other ↦ rw other (
      read_all-append (closing s.index s.kind) (block_start s.next_index k ∷ []) (reader s)
      ∙ ap (read_all (block_start s.next_index k ∷ [])) (closing-read s.index s.next_index s.kind)
      ∙ block_start-read s.next_index k)
]

same_kind-eq : (k : Kind) (o : Option Kind) → same_kind k o ≡ true → o ≡ some k
unfolding same_kind
same_kind-eq k none h = absurd cc
same_kind-eq thinking_block (some thinking_block) h = refl
same_kind-eq thinking_block (some text_block) h = absurd cc
same_kind-eq text_block (some thinking_block) h = absurd cc
same_kind-eq text_block (some text_block) h = refl

start-kind : (k : Kind) (s : ContentStream) → (start k s).1.kind ≡ some k
unfolding start
start-kind k s = elim (Bool-cases (same_kind k s.kind)) [
  | inl same ↦ rw same (same_kind-eq k s.kind same)
  | inr other ↦ rw other refl
]

thinking-read :
    (i n : ℕ) (t : Text)
    → read_all (thinking_delta i t ∷ []) (some (view (some thinking_block) i, n))
      ≡ some (view (some thinking_block) i, n)
unfolding read_all read guarded view
thinking-read i n t = rw (eqb_refl i) refl

text-read :
    (i n : ℕ) (t : Text)
    → read_all (if is_empty t then [] else text_delta i t ∷ []) (some (view (some text_block) i, n))
      ≡ some (view (some text_block) i, n)
unfolding read_all read guarded view
text-read i n [] = refl
text-read i n (c ∷ t) = rw (eqb_refl i) refl

-- The calls on a stream.
pub data Call : Type 0 where
  reasoning_call : ReasoningDelta → Call
  text_call : Text → Call
  tool_call : Text → Text → Text → Call
  close_call : Call

unfoldable pub step : Call → ContentStream → List BlockEvent × ContentStream
step (reasoning_call delta) s = reasoning_event delta s
step (text_call t) s = text_event t s
step (tool_call id name input) s = tool_event id name input s
step close_call s = close s

unfoldable pub run : List Call → ContentStream → List BlockEvent × ContentStream
run [] s = ([], s)
run (c ∷ calls) s = let now = step c s in let later = run calls now.1 in (now.0 ++ later.0, later.1)

step-read : (c : Call) (s : ContentStream) → read_all (step c s).0 (reader s) ≡ reader (step c s).1
unfolding step reasoning_event text_event tool_event close
step-read (reasoning_call delta) s =
    let t = (start thinking_block s).1 in
    let e = thinking_delta t.index (add delta t.reasoning).0 ∷ [] in
    read_all-append (start thinking_block s).0 e (reader s)
    ∙ ap (λ (r : Option Reader). read_all e r) (start-read thinking_block s)
    ∙ rw (start-kind thinking_block s)
        (thinking-read t.index t.next_index (add delta t.reasoning).0)
step-read (text_call t) s =
    let u = (start text_block s).1 in
    let e = if is_empty t then [] else text_delta u.index t ∷ [] in
    read_all-append (start text_block s).0 e (reader s)
    ∙ ap (λ (r : Option Reader). read_all e r) (start-read text_block s)
    ∙ rw (start-kind text_block s) (text-read u.index u.next_index t)
step-read (tool_call id name input) s =
    let n = s.next_index in
    let e = tool_start n id name ∷ input_delta n input ∷ block_stop n ∷ [] in
    read_all-append (closing s.index s.kind) e (reader s)
    ∙ ap (λ (r : Option Reader). read_all e r) (closing-read s.index n s.kind)
    ∙ tool-read n id name input
    ∙ (unfold view in refl)
step-read close_call s = closing-read s.index s.next_index s.kind ∙ (unfold view in refl)

run-read :
    (calls : List Call) (s : ContentStream)
    → read_all (run calls s).0 (reader s) ≡ reader (run calls s).1
unfolding run
run-read [] s = unfold read_all in refl
run-read (c ∷ calls) s =
    read_all-append (step c s).0 (run calls (step c s).1).0 (reader s)
    ∙ ap (λ (r : Option Reader). read_all (run calls (step c s).1).0 r) (step-read c s)
    ∙ run-read calls (step c s).1

-- Whatever the calls, a stream that is then closed keeps the block protocol: blocks open one at a
-- time with the indices 0, 1, 2 and on, each delta names the open block and fits its kind, each
-- thinking block is signed once before its stop, and in the end no block is open.
pub run-close-read :
    (calls : List Call)
    → read_all
        ((run calls content_stream).0 ++ (close (run calls content_stream).1).0)
        (some (nothing, 0))
      ≡ some (nothing, (run calls content_stream).1.next_index)
unfolding close view
run-close-read calls =
    let s = (run calls content_stream).1 in
    read_all-append (run calls content_stream).0 (closing s.index s.kind) (some (nothing, 0))
    ∙ ap (λ (r : Option Reader). read_all (closing s.index s.kind) r)
        (run-read calls content_stream)
    ∙ closing-read s.index s.next_index s.kind
