-- ===== src/Store/Page/Controller.antt =====
-- The controller of a load, `updateWithFileIds` of store/pageStore.ts: what `demandFetchMetadata` calls to have the
-- chunks of some files loaded first, and to read their metadata.
use hydrui.Base.{
  ℕ, Option, none, some, List, [], ◌∷◌, ◌++◌, has, filter, outside, unique, is_empty, if◌then◌else◌,
}
use hydrui.Store.Page.{PageState, FileMetadata, entry}
use hydrui.Store.Page.Load.{Loader, wake, filled}

abbrev pub known : Option ℕ → List ℕ → List ℕ
known none cs = cs
known (some c) cs = c ∷ cs

unfoldable pub chunks_of : List (ℕ × ℕ) → List ℕ → List ℕ
unfolding entry
chunks_of chunk_of [] = []
chunks_of chunk_of (f ∷ fs) = known (entry f chunk_of) (chunks_of chunk_of fs)

-- `getChunksForFileIDs`
unfoldable pub get_chunks_for_file_ids : Loader → List ℕ → List ℕ
unfolding chunks_of unique
get_chunks_for_file_ids l file_ids = unique [] (chunks_of l.file_id_to_chunk file_ids)

-- What `reprioritizeChunks` makes of the queue.
unfoldable pub front : List ℕ → List ℕ → List ℕ
unfolding filter has
front chunks queue = filter (λ c. has c queue) chunks ++ filter (outside chunks) queue

-- `reprioritizeChunks`
unfoldable pub reprioritize_chunks : List ℕ → Loader → PageState → Loader × PageState
unfolding front wake
reprioritize_chunks chunks l st =
    let chunk_list = filter (λ c. has c l.file_id_chunks) chunks in
    let l' = record l {
      demand_set = l.demand_set ++ filter (outside l.demand_set) chunk_list;
      file_id_chunks = front chunks l.file_id_chunks;
    } in
    if is_empty l'.demand_set then (l', st) else wake l' st

-- `metadataLoadController.reprioritize`
unfoldable pub reprioritize : List ℕ → Loader → PageState → Loader × PageState
unfolding reprioritize_chunks get_chunks_for_file_ids
reprioritize file_ids l st = reprioritize_chunks (get_chunks_for_file_ids l file_ids) l st

-- `demandFetchMetadata` waits for the promises of its chunks; then `getRealizedFiles` is read.
pub data Realized : Type 0 where
  realized : List FileMetadata → Realized
  not_in_page unrealized : ℕ → Realized

abbrev pub loaded_or : Option FileMetadata → ℕ → Realized
loaded_or (some file) f = realized (file ∷ [])
loaded_or none f = unrealized f

abbrev pub slot : List (Option FileMetadata) → Option ℕ → ℕ → Realized
slot loaded none f = not_in_page f
slot loaded (some i) f = loaded_or (filled loaded i) f

abbrev pub joined : Realized → Realized → Realized
joined (realized xs) (realized ys) = realized (xs ++ ys)
joined (realized xs) e = e
joined e r = e

unfoldable pub get_realized_files : Loader → PageState → List ℕ → Realized
unfolding entry filled
get_realized_files l st [] = realized []
get_realized_files l st (f ∷ fs) =
    joined (slot st.loaded_files (entry f l.file_id_to_index) f) (get_realized_files l st fs)
