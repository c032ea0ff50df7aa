-- ===== src/Retrain.antt =====
-- retrainer/retrain.py. `Calendar` is `weekday_monday0`, `Record` is `encode_record` and
-- the labels of `build_tensors`, `Window` is `read_window`, `Export` is `export_onnx`, `Rounds` is
-- `write_status`, `train_round` and the loop of `main`, and `Tune` the rounds with their training.
pub mod Calendar
pub mod Record
pub mod Window
pub mod Export
pub mod Rounds
pub mod Tune
