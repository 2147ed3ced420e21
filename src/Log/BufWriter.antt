-- ===== src/Log/BufWriter.antt =====
-- `std::io::BufWriter<File>` as the writers of lines in crates/core/src/log use it, on a file that is
-- opened for appending and does not fail. How many of the bytes in hand go on to the file when it is
-- written to is the parameter `spill`.
use tracemux.Prelude.{
  ℕ, ◌≡◌, sym, ap, ◌∙◌, List, [], ◌++◌, take, drop, append_assoc, take-append-drop,
}

pub record BufWriter : Type 0 where
  pub disk : List ℕ
  pub buffered : List ℕ

-- `BufWriter::new`, on the bytes of the file
unfoldable pub new : List ℕ → BufWriter
new bytes = record { disk = bytes; buffered = [] }

-- `write_all`
unfoldable pub write_all : (List ℕ → ℕ) → List ℕ → BufWriter → BufWriter
write_all spill xs w =
    let all = w.buffered ++ xs in
    record { disk = w.disk ++ take (spill all) all; buffered = drop (spill all) all }

-- `flush`
unfoldable pub flush : BufWriter → BufWriter
flush w = record { disk = w.disk ++ w.buffered; buffered = [] }

-- What was written is on disk once it is flushed.
pub flush-write_all :
    (spill : List ℕ → ℕ) (xs : List ℕ) (w : BufWriter)
    → (flush (write_all spill xs w)).disk ≡ (flush w).disk ++ xs
unfolding flush write_all
flush-write_all spill xs w =
    let all = w.buffered ++ xs in
    append_assoc w.disk (take (spill all) all) (drop (spill all) all)
    ∙ ap (λ ys. w.disk ++ ys) (take-append-drop (spill all) all)
    ∙ sym (append_assoc w.disk w.buffered xs)
