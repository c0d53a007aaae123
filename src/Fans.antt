-- ===== src/Fans.antt =====
-- internal/fans: the fan controller. Temperatures and duties are Go's float64, which is a
-- parameter here: a type with the operations that the code uses. `Provider` is the interface of
-- fans.go over an abstract machine state; Fans/Hwmon is the Linux implementation of it.
pub mod Curve
pub mod Controller
pub mod Hwmon
