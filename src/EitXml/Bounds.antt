-- ===== src/EitXml/Bounds.antt =====
-- eit_xml.c: the buffer of the XML, and what a section holds that is taken from it.
use mathlib.Core.List.{append_assoc, append-nil}
use multicat_supervisor.Base.{
  joined, ℕ, ◌+◌, ◌*◌, ◌≤◌, ◌<◌, ◌≡◌, refl, ap, sym, ◌∙◌, true, some, List, [], ◌∷◌, ◌++◌, arith,
  leb, if◌then◌else◌, length, length-append, All, Bytes,
}
use multicat_supervisor.Io.{ok}
use multicat_supervisor.EitXml.Sections.{Buffer, read_chunk, read_chunks, extract_eti_xml_from_ts}

read_chunks-joined :
    (chunks : List Bytes) (b : Buffer)
    → All (λ c. length c ≤ 256) chunks
    → length b.content < b.comalloc
    → 256 ≤ b.comalloc
    → read_chunks chunks b ≡ ok (b.content ++ joined chunks)
unfolding read_chunks read_chunk
read_chunks-joined [] b h k l = ap ok (sym (append-nil b.content))
read_chunks-joined (c ∷ cs) b h k l =
    let size : ℕ = length b.content + length c in
    let comalloc : ℕ = if leb b.comalloc size then b.comalloc * 2 else b.comalloc in
    let fits : leb size comalloc ≡ true = ground (arith, h.0) in
    rw fits (
      read_chunks-joined cs (record { content = b.content ++ c; comalloc = comalloc }) h.1
        (rw (length-append b.content c) (ground (arith, h.0))) (ground arith)
      ∙ ap ok (append_assoc b.content c (joined cs)))

-- If fread gives at most 256 bytes each time, extract_eti_xml_from_ts never writes behind its
-- buffer, however it grows, and the XML is all that was read.
pub extract_eti_xml_from_ts_lem :
    (chunks : List Bytes)
    → All (λ c. length c ≤ 256) chunks
    → extract_eti_xml_from_ts (some chunks) ≡ ok (some (joined chunks))
unfolding extract_eti_xml_from_ts
extract_eti_xml_from_ts_lem chunks h =
    let read =
      read_chunks-joined chunks (record { content = []; comalloc = 256 }) h (omega arith)
        (omega arith) in
    rw read refl
