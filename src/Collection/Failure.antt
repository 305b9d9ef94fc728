-- ===== src/Collection/Failure.antt =====
-- A stream that has failed stays failed (core/data_access_layer.cpp): what the operations do then.
use toocal.Prelude.{ℕ, ◌≡◌, ◌≢◌, true, false, List, ne→==, arith}
use toocal.Platform.{Platform}
use toocal.Effects.{err, terminated, io_error}
use toocal.Dal.{Dal, Page, read_page, write_page, get_node, offset_of}
use toocal.Dal.Fstream
use toocal.Dal.Fstream.{File}
use toocal.Collection.{Collection, find, put, remove}

seek-failed : (pos : ℕ) (f : File) → f.failed ≡ true → Fstream.seek pos f ≡ (false, f)
unfolding Fstream.seek
seek-failed pos f h = ground arith

module _ (d : Dal) (broken : d.file.failed ≡ true) where
  read_page-failed : (page_num : ℕ) → read_page page_num d ≡ err io_error d
  unfolding read_page
  read_page-failed page_num = simp (seek-failed (offset_of page_num d) d.file broken)

  write_page-failed : (page : Page) → write_page page d ≡ err io_error d
  unfolding write_page
  write_page-failed page = simp (seek-failed (offset_of page.page_num d) d.file broken)

  get_node-failed : ⦃p : Platform⦄ → (page_num : ℕ) → get_node page_num d ≡ err io_error d
  unfolding get_node
  get_node-failed page_num = rw (read_page-failed page_num)

module _ ⦃p : Platform⦄ where
  -- Once the stream has failed, every search and every removal ends with the error of the stream and
  -- changes nothing, and a `put` into a collection that has a root ends the process.
  pub failed_stream :
      (c : Collection) (fuel : ℕ) (key value stale : List ℕ)
      → c.dal.file.failed ≡ true
      → (find fuel key c ≡ err io_error c)
        × (remove fuel key c ≡ err io_error c)
        × (c.root ≢ 0 → put fuel stale key value c ≡ terminated)
  unfolding find remove put
  failed_stream c fuel key value stale broken =
      let e = get_node-failed c.dal broken c.root in (rw e, rw e, λ ne. rw (ne→== c.root 0 ne, e))
