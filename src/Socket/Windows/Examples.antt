-- ===== src/Socket/Windows/Examples.antt =====
-- A buffer of ten bytes.
use async_berkeley.Base.{◌≡◌, refl}
use async_berkeley.Socket.Windows.{Wsabuf, advance_wsabuf}

abbrev ten : Wsabuf
ten = record { len = 10; buf = 4096 }

part : advance_wsabuf ten 4 ≡ record { len = 6; buf = 4100 }
unfolding advance_wsabuf
part = refl
