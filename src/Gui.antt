-- ===== src/Gui.antt =====
-- gui: the widgets that show and change the encoder's state. What GTK answers about a widget (its
-- kind, whether it is visible, whether it has the focus) is an argument.
pub mod Checkbox
pub mod Masks
pub mod Boxes
pub mod Entries
pub mod Shown
