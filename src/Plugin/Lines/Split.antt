-- ===== src/Plugin/Lines/Split.antt =====
-- However the bytes arrive, the lines are those of the whole.
use fcitx5_anytalk.Prelude.{
  false, ℕ, zero, suc, ◌≤◌, ◌<◌, ◌≡◌, refl, sym, ◌∙◌, ap, Option, none, some, Option-cases,
  Bool-cases, inl, inr, List, [], ◌∷◌, ◌++◌, length, take, drop, concat, ◌==◌, if◌then◌else◌, arith,
  length-drop, append-nil, append_assoc,
}
use fcitx5_anytalk.Plugin.Lines.{find, process_messages, receive, receive_all}

-- A byte put before the first line, or before what is left.
abbrev pub push : ℕ → List (List ℕ) × List ℕ → List (List ℕ) × List ℕ
push b ([], left) = ([], b ∷ left)
push b (line ∷ lines, left) = ((b ∷ line) ∷ lines, left)

-- The lines of a text, byte by byte, and what stands after the last newline.
abbrev pub split_lines : List ℕ → List (List ℕ) × List ℕ
split_lines [] = ([], [])
split_lines (b ∷ bytes) =
    let (lines, left) = split_lines bytes in
    if b == 0x0a then ([] ∷ lines, left) else push b (lines, left)

-- No newline: one line that has not ended.
split_lines-none : (bytes : List ℕ) → find 0x0a bytes ≡ none → split_lines bytes ≡ ([], bytes)
unfolding find
split_lines-none [] h = refl
split_lines-none (b ∷ bytes) h = ground (arith, h, split_lines-none bytes)

split_lines-some :
    (bytes : List ℕ) (i : ℕ)
    → find 0x0a bytes ≡ some i
    → let rest = split_lines (drop (suc i) bytes) in
      split_lines bytes ≡ (take i bytes ∷ rest.0, rest.1)
unfolding find
split_lines-some [] i h = absurd (ground (arith, h))
split_lines-some (b ∷ bytes) zero h = elim (Bool-cases (b == 0x0a)) [
  | inl newline ↦ rw newline
  | inr plain ↦ absurd (zero_later (find 0x0a bytes) plain h)
]
  where
    zero_later : (o : Option ℕ) → (b == 0x0a) ≡ false → find 0x0a (b ∷ bytes) ≡ some 0 → ⊥
    zero_later o plain found = ground (arith, plain, found)
split_lines-some (b ∷ bytes) (suc i) h = elim (Bool-cases (b == 0x0a)) [
  | inl newline ↦ absurd (ground (arith, newline, h))
  | inr plain ↦ rw plain (ap (push b) (split_lines-some bytes i (ground (arith, plain, h))))
]

find-lt : (bytes : List ℕ) (i : ℕ) → find 0x0a bytes ≡ some i → i < length bytes
unfolding find
find-lt [] i h = absurd (ground (arith, h))
find-lt (b ∷ bytes) zero h = omega arith
find-lt (b ∷ bytes) (suc i) h = omega (arith, find-lt bytes i (ground (arith, h)))

-- The loop finds the lines of the buffer.
process_messages-lines :
    (fuel : ℕ) (buffer : List ℕ)
    → length buffer ≤ fuel
    → process_messages fuel buffer ≡ split_lines buffer
unfolding process_messages
process_messages-lines zero [] h = refl
process_messages-lines zero (b ∷ buffer) h = absurd (omega arith)
process_messages-lines (suc fuel) buffer h = elim (Option-cases (find 0x0a buffer)) [
  | inl absent ↦ ground (arith, absent, split_lines-none buffer absent)
  | inr (i, found) ↦
      let rest =
        process_messages-lines fuel (drop (suc i) buffer)
          (omega (arith, h, length-drop (suc i) buffer, find-lt buffer i found)) in
      ground (arith, found, rest, split_lines-some buffer i found)
]

pub receive-lines : (buffer chunk : List ℕ) → receive buffer chunk ≡ split_lines (buffer ++ chunk)
unfolding receive
receive-lines buffer chunk =
    process_messages-lines (length (buffer ++ chunk)) (buffer ++ chunk) (omega arith)

-- A byte that is no newline, before lines that are known.
push-append :
    (b : ℕ) (lines : List (List ℕ)) (left more : List ℕ) (whole : List (List ℕ) × List ℕ)
    → (b == 0x0a) ≡ false
    → let second = split_lines (left ++ more) in
      whole ≡ (lines ++ second.0, second.1)
      → let first = push b (lines, left) in
        let second' = split_lines (first.1 ++ more) in
        push b whole ≡ (first.0 ++ second'.0, second'.1)
push-append b [] left more whole plain e = rw plain (ap (push b) e)
push-append b (line ∷ lines) left more whole plain e = ap (push b) e

-- Lines of a text in two parts: those of the first, then those of what it left with the second.
pub split_lines-append :
    (bytes more : List ℕ)
    → let first = split_lines bytes in
      let second = split_lines (first.1 ++ more) in
      split_lines (bytes ++ more) ≡ (first.0 ++ second.0, second.1)
split_lines-append [] more = refl
split_lines-append (b ∷ bytes) more =
    let rest = split_lines-append bytes more in
    elim (Bool-cases (b == 0x0a)) [
      | inl newline ↦ rw newline (ap (λ (r : List (List ℕ) × List ℕ). ([] ∷ r.0, r.1)) rest)
      | inr plain ↦
          rw plain (push-append b ((split_lines bytes).0) ((split_lines bytes).1) more _ plain rest)
    ]

push-left :
    (b : ℕ) (lines : List (List ℕ)) (left : List ℕ)
    → (b == 0x0a) ≡ false
    → split_lines left ≡ ([], left)
    → let r = push b (lines, left) in split_lines (r.1) ≡ ([], r.1)
push-left b [] left plain h = rw plain (ap (push b) h)
push-left b (line ∷ lines) left plain h = h

-- What is left has no newline.
split_lines-left :
    (bytes : List ℕ) → split_lines ((split_lines bytes).1) ≡ ([], (split_lines bytes).1)
split_lines-left [] = refl
split_lines-left (b ∷ bytes) = elim (Bool-cases (b == 0x0a)) [
  | inl newline ↦ rw newline (split_lines-left bytes)
  | inr plain ↦
      rw plain
        (push-left b ((split_lines bytes).0) ((split_lines bytes).1) plain (split_lines-left bytes))
]

-- From a buffer without a newline, however the bytes come in chunks, the lines handed on are those of
-- the buffer and all the bytes together, in order, and what is left is what stands after the last
-- newline.
pub receive_all-lines :
    (buffer : List ℕ) (chunks : List (List ℕ))
    → split_lines buffer ≡ ([], buffer)
    → receive_all buffer chunks ≡ split_lines (buffer ++ concat chunks)
unfolding receive_all receive
receive_all-lines buffer [] h = rw append-nil (sym h)
receive_all-lines buffer (chunk ∷ chunks) h =
    let bytes = buffer ++ chunk in
    let here : receive buffer chunk ≡ split_lines bytes =
      process_messages-lines (length bytes) bytes (omega arith) in
    let later = receive_all-lines ((split_lines bytes).1) chunks (split_lines-left bytes) in
    ap
      (λ (r : List (List ℕ) × List ℕ).
        (r.0 ++ (receive_all (r.1) chunks).0, (receive_all (r.1) chunks).1))
      here
    ∙ ap (λ (r : List (List ℕ) × List ℕ). ((split_lines bytes).0 ++ r.0, r.1)) later
    ∙ sym (split_lines-append bytes (concat chunks))
    ∙ ap split_lines (append_assoc buffer chunk (concat chunks))

-- A line with its newline in front.
pub split_lines-ends :
    (line bytes : List ℕ)
    → find 0x0a line ≡ none
    → let rest = split_lines bytes in split_lines (line ++ (0x0a ∷ bytes)) ≡ (line ∷ rest.0, rest.1)
unfolding find
split_lines-ends [] bytes h = refl
split_lines-ends (b ∷ line) bytes h = ground (arith, h, split_lines-ends line bytes)
